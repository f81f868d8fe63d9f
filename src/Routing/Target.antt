-- ===== src/Routing/Target.antt =====
-- The upstream path of internal/proxy/engine.go.
use revproxy.Prelude.{
  ◌≡◌, refl, ap, false, not, [], ◌∷◌, ◌++◌, arith, if◌then◌else◌, Bytes, is_empty, has_prefix,
  trim_right, trim_prefix-append,
}
use revproxy.Config.{Route}
use revproxy.Backend.{Url}
use revproxy.Routing.{with_slash, or_root, inner_path, apply_out_url}

or_root-append : (s t : Bytes) → or_root (s ++ with_slash t) ≡ s ++ with_slash t
unfolding with_slash has_prefix
or_root-append [] [] = refl
or_root-append [] (c ∷ t) = ground arith
or_root-append (c ∷ s) t = refl

inner_path-append :
    (cfg : Route) (rest : Bytes)
    → inner_path cfg (cfg.path ++ rest) ≡ (
        if not (is_empty cfg.rewrite)
        then trim_right b'/' cfg.rewrite ++ with_slash rest
        else if cfg.strip_path
        then with_slash rest
        else cfg.path ++ rest)
unfolding inner_path
inner_path-append cfg rest = ground (
  arith,
  trim_prefix-append cfg.path rest,
  or_root-append (trim_right b'/' cfg.rewrite) rest,
  or_root-append [] rest,
)

-- For a request below the path of the route: the upstream path is the base path of the node
-- without its last slashes, followed by the rest of the request path behind the rewrite, which also
-- loses its last slashes; by that rest alone where the prefix is stripped; and by the whole
-- request path where neither is asked for. Scheme and host are those of the node.
pub apply_out_url_below :
    (cfg : Route) (base out : Url) (rest : Bytes)
    → out.path ≡ cfg.path ++ rest
    → let u = apply_out_url cfg base out in
      (u.scheme ≡ base.scheme)
      × (u.host ≡ base.host)
      × (u.path
          ≡ trim_right b'/' base.path
            ++ (if not (is_empty cfg.rewrite)
                then trim_right b'/' cfg.rewrite ++ with_slash rest
                else if cfg.strip_path
                then with_slash rest
                else out.path))
unfolding apply_out_url
apply_out_url_below cfg base out rest e =
    (refl, refl, rw e (ap (λ s. trim_right b'/' base.path ++ s) (inner_path-append cfg rest)))

-- On a route with no rewrite and no stripped prefix the base path goes in front of the whole path.
pub apply_out_url-plain :
    (cfg : Route) (base out : Url)
    → cfg.rewrite ≡ []
    → cfg.strip_path ≡ false
    → (apply_out_url cfg base out).path ≡ trim_right b'/' base.path ++ out.path
unfolding apply_out_url inner_path
apply_out_url-plain cfg base out e k = rw (e, k) refl
