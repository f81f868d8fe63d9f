-- ===== src/Start/Banner.antt =====
-- The address that the banner prints, main.go.
use revproxy.Prelude.{
  ◌≡◌, ◌≢◌, refl, false, [], ◌∷◌, ◌++◌, arith, Bytes, codes, has_byte, has_prefix, strip,
}
use revproxy.Config.{Config}
use revproxy.Start.{replace_first, admin_url}

replace-colon :
    (host port : Bytes)
    → has_byte b':' host ≡ false
    → replace_first (codes ":") (codes "127.0.0.1:") (host ++ b':' ∷ port)
      ≡ host ++ (codes "127.0.0.1:" ++ port)
unfolding replace_first has_byte strip
replace-colon [] port h = refl
replace-colon (c ∷ host) port h = ground (arith, replace-colon host port)

-- The bug in the banner: where the administration pages have an address of their own with a host
-- in it, the printed URL has `127.0.0.1` joined to that host, so that it leads nowhere.
pub admin_url_host :
    (c : Config) (admin_path host port : Bytes)
    → host ≢ []
    → has_byte b':' host ≡ false
    → admin_url c admin_path (host ++ b':' ∷ port)
      ≡ codes "http://" ++ ((host ++ (codes "127.0.0.1:" ++ port)) ++ (admin_path ++ codes "/"))
unfolding admin_url has_prefix has_byte
admin_url_host c admin_path [] port h n = absurd (h refl)
admin_url_host c admin_path (b ∷ host) port h n = ground (arith, replace-colon (b ∷ host) port n)
