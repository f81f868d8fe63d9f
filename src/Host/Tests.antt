-- ===== src/Host/Tests.antt =====
-- Examples for hosts and addresses.
use revproxy.Prelude.{◌≡◌, refl, ◌∷◌, ◌++◌, some, codes, has_byte}
use revproxy.Host.{split_host_port}
use revproxy.Host.Port.{split_host_port-append}

split_host_port-append_example :
    split_host_port (codes "b.com" ++ b':' ∷ codes "90") ≡ some (codes "b.com", codes "90")
unfolding has_byte
split_host_port-append_example =
    split_host_port-append (codes "b.com") (codes "90") (refl, refl, refl) (refl, refl, refl)
