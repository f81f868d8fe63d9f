-- ===== src/Transport.antt =====
-- The transports of internal/proxy/upstream.go, `TransportManager`, with the options that
-- the engine and the health checker ask for, and `Key` of internal/socks/socks5.go. A
-- transport is what `Get` puts into an `http.Transport`, at an address `place`; durations are nanoseconds.
pub mod Keys
pub mod Cached
mod Tests
use revproxy.Prelude.{
  ℕ, zero, suc, ◌+◌, ◌-◌, ◌*◌, ◌/◌, ◌^◌, Bool, true, false, ◌&&◌, not, List, [], ◌∷◌, ◌++◌, Option,
  none, some, if◌then◌else◌, ℤ, pos, negsuc, ◌*ℤ◌, ltb_ℤ, eqb_ℤ, is_nonpos, default_to, wrap64,
  Bytes, codes, bytes_eq,
}
use revproxy.Config.{Config, Route, HealthCheck}
use revproxy.Backend.{SocksConfig}
use revproxy.Socks.Dial.{is_direct, seconds_of}

-- Key, for a proxy that may be nil.
unfoldable pub proxy_key : Option SocksConfig → Bytes
proxy_key none = codes "direct"
proxy_key (some c) =
    if is_direct (some c)
    then codes "direct"
    else c.proxy_type ++ b'|' ∷ (c.addr ++ b'|' ∷ (c.username ++ b'|' ∷ c.password))

pub record TransportOpts : Type 0 where
  pub proxy : Option SocksConfig
  pub insecure : Bool
  pub dial_to : ℤ
  pub resp_to : ℤ
  pub keep_alive : ℤ
  pub max_idle : ℤ
  pub max_per_host : ℤ

pub record TransportKey : Type 0 where
  pub proxy : Bytes
  pub insecure : Bool
  pub dial_to : ℤ
  pub resp_to : ℤ
  pub keep_alive : ℤ
  pub idle_conn : ℤ
  pub max_host : ℤ

-- The settings of an `http.Transport`; `response_header` is 0 where there is no limit.
pub record Settings : Type 0 where
  pub max_idle_conns : ℤ
  pub max_idle_per_host : ℤ
  pub max_conns_per_host : ℤ
  pub tls_handshake : ℤ
  pub response_header : ℤ
  pub skip_verify : Bool

-- `px` is what `DialContext` dials through.
pub record Transport : Type 0 where
  pub place : ℕ
  pub px : Option SocksConfig
  pub settings : Settings

pub record TransportManager : Type 0 where
  pub cache : List (TransportKey × Transport)
  pub fresh : ℕ

abbrev pub new_manager : TransportManager
new_manager = record { cache = []; fresh = 0 }

unfoldable pub with_defaults : TransportOpts → TransportOpts
with_defaults o = record o {
  dial_to = default_to 10 o.dial_to;
  keep_alive = default_to 30 o.keep_alive;
  max_idle = default_to 200 o.max_idle;
}

unfoldable pub key_of : TransportOpts → TransportKey
key_of o = record {
  proxy = proxy_key o.proxy;
  insecure = o.insecure;
  dial_to = o.dial_to;
  resp_to = o.resp_to;
  keep_alive = o.keep_alive;
  idle_conn = o.max_idle;
  max_host = o.max_per_host;
}

-- max(2, n / 4); the division truncates towards zero, so that it is below 2 for a negative `n`.
unfoldable pub idle_per_host : ℤ → ℤ
idle_per_host (pos n) = if ltb_ℤ (pos (n / 4)) (pos 2) then pos 2 else pos (n / 4)
idle_per_host (negsuc n) = pos 2

unfoldable pub settings_of : TransportOpts → Settings
unfolding idle_per_host seconds_of
settings_of o = record {
  max_idle_conns = o.max_idle;
  max_idle_per_host = idle_per_host o.max_idle;
  max_conns_per_host = o.max_per_host;
  tls_handshake = seconds_of o.dial_to;
  response_header = if is_nonpos o.resp_to then pos 0 else seconds_of o.resp_to;
  skip_verify = o.insecure;
}

bool_eq : Bool → Bool → Bool
bool_eq true b = b
bool_eq false b = not b

unfoldable pub key_eq : TransportKey → TransportKey → Bool
unfolding bool_eq
key_eq a b =
    bytes_eq a.proxy b.proxy
    && (bool_eq a.insecure b.insecure
        && (eqb_ℤ a.dial_to b.dial_to
            && (eqb_ℤ a.resp_to b.resp_to
                && (eqb_ℤ a.keep_alive b.keep_alive
                    && (eqb_ℤ a.idle_conn b.idle_conn && eqb_ℤ a.max_host b.max_host)))))

unfoldable pub find_transport : TransportKey → List (TransportKey × Transport) → Option Transport
unfolding key_eq
find_transport k [] = none
find_transport k ((j, held) ∷ l) = if key_eq j k then some held else find_transport k l

-- The part of `Get` after the defaults.
unfoldable pub cached : TransportManager → TransportOpts → TransportManager × Transport
unfolding key_of settings_of find_transport
cached m o = elim (find_transport (key_of o) m.cache) [
  | some held ↦ (m, held)
  | none ↦
      (let held : Transport = record { place = m.fresh; px = o.proxy; settings = settings_of o } in
        (record { cache = (key_of o, held) ∷ m.cache; fresh = suc m.fresh }, held))
]

-- Get
unfoldable pub get : TransportManager → TransportOpts → TransportManager × Transport
unfolding with_defaults cached
get m o = cached m (with_defaults o)

-- What the engine asks for when it sends a request of a route.
unfoldable pub resp_timeout : Config → Route → ℤ
resp_timeout c r = if is_nonpos r.timeout then c.global.response_timeout else r.timeout

unfoldable pub dial_timeout : Config → ℤ
dial_timeout c = default_to 10 c.global.dial_timeout

unfoldable pub route_opts : Config → Route → Option SocksConfig → TransportOpts
unfolding resp_timeout dial_timeout
route_opts c r px = record {
  proxy = px;
  insecure = r.insecure_tls;
  dial_to = dial_timeout c;
  resp_to = resp_timeout c r;
  keep_alive = c.global.keep_alive;
  max_idle = c.global.max_idle_conns;
  max_per_host = c.global.max_conns_per_host;
}

at_least_one : ℤ → ℤ
at_least_one n = if ltb_ℤ n (pos 1) then pos 1 else n

-- What the health checker asks for, and the test of a node.
unfoldable pub check_opts : HealthCheck → Bool → Option SocksConfig → TransportOpts
unfolding at_least_one
check_opts cfg insecure px = record {
  proxy = px;
  insecure = insecure;
  dial_to = at_least_one cfg.timeout;
  resp_to = at_least_one cfg.timeout;
  keep_alive = pos 0;
  max_idle = pos 4;
  max_per_host = pos 0;
}

unfoldable pub probe_opts : Bool → Option SocksConfig → TransportOpts
probe_opts insecure px = record {
  proxy = px;
  insecure = insecure;
  dial_to = pos 10;
  resp_to = pos 15;
  keep_alive = pos 0;
  max_idle = pos 2;
  max_per_host = pos 0;
}
