-- ===== src/Transport/Tests.antt =====
-- Examples for the cache of transports.
use revproxy.Prelude.{
  ◌≡◌, ◌↔◌, refl, true, false, [], ◌∷◌, Option, none, some, ℤ, pos, negsuc, ltb_ℤ, ◌*◌, ◌^◌,
  if◌then◌else◌, Bytes, codes, bytes_eq, has_byte,
}
use revproxy.Backend.{SocksConfig}
use revproxy.Socks.{Conn, Ip}
use revproxy.Socks.Dial.{dial_context, is_direct, dial_limit, seconds_of}
use revproxy.Transport.{
  TransportOpts, proxy_key, with_defaults, key_of, settings_of, new_manager, get, find_transport,
}
use revproxy.Transport.Cached.{gets, get-IsFaithful, get-stale_limit}

abbrev slow_proxy : SocksConfig
slow_proxy = record {
  proxy_type = codes "http";
  addr = codes "p:8080";
  username = codes "u";
  password = codes "a|b";
  timeout = pos 60;
}

abbrev opts : TransportOpts
opts = record {
  proxy = some slow_proxy;
  insecure = false;
  dial_to = pos 0;
  resp_to = pos 30;
  keep_alive = pos 0;
  max_idle = pos 0;
  max_per_host = pos 0;
}

abbrev direct_opts : TransportOpts
direct_opts = record opts { proxy = none }

-- Connecting takes half a minute.
abbrev slow_net : ℤ → Bytes → Option Conn
slow_net limit addr =
    if ltb_ℤ limit (pos (30 * 10 ^ 9))
    then none
    else some (record { input = []; output = []; writes = 9; closed = false; timed = false })

abbrev no_ip : Bytes → Option Ip
no_ip s = none

key_text : proxy_key (some slow_proxy) ≡ codes "http|p:8080|u|a|b"
unfolding proxy_key is_direct bytes_eq
key_text = refl

-- The user `u|a` with the password `b` has the same key.
key_collides :
    proxy_key (some slow_proxy)
    ≡ proxy_key (some (record slow_proxy { username = codes "u|a"; password = codes "b" }))
unfolding proxy_key is_direct bytes_eq
key_collides = refl

-- A time limit that is too large for 64 bits wraps around.
seconds_wrap : seconds_of (pos 9223372037) ≡ negsuc 9223372036709551615
unfolding seconds_of
seconds_wrap = refl

get-IsFaithful_example :
    let (m, held) = get (gets new_manager (direct_opts ∷ [])) opts in
    (held.settings ≡ settings_of (with_defaults opts))
    × ((dial_context slow_net no_ip (λ s. s) true false held.px (codes "tcp") (codes "b.com:80")
          ≡ dial_context
              (λ _. slow_net (dial_limit held.px))
              no_ip
              (λ s. s)
              true
              false
              (some slow_proxy)
              (codes "tcp")
              (codes "b.com:80"))
        × (((get m direct_opts).1.place ≡ held.place)
            ↔ (key_of (with_defaults direct_opts) ≡ key_of (with_defaults opts))))
unfolding has_byte
get-IsFaithful_example =
    get-IsFaithful slow_net no_ip (λ s. s) true false (direct_opts ∷ []) opts direct_opts
      (codes "tcp") (codes "b.com:80") (tt, tt) (refl, (refl, refl))

get-stale_limit_example :
    let (m, held) = get new_manager opts in
    let again = (get m (record opts { proxy = some (record slow_proxy { timeout = pos 5 }) })).1 in
    (again ≡ held) × (dial_limit again.px ≡ dial_limit (some slow_proxy))
unfolding find_transport
get-stale_limit_example = get-stale_limit new_manager opts slow_proxy (pos 5) refl
