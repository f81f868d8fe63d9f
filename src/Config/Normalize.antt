-- ===== src/Config/Normalize.antt =====
-- `normalize` of internal/config/config.go fills in defaults and orders the routes.
pub mod Order
pub mod Defaults
pub mod Twice
use revproxy.Prelude.{
  ℕ, suc, ◌+◌, Bool, true, false, ◌&&◌, not, List, [], ◌∷◌, ◌++◌, map, Option, none, some, ltb,
  if◌then◌else◌, length, ℤ, pos, default_to, ltb_ℤ, eqb_ℤ, zero, Bytes, codes, bytes_eq, is_empty,
  trim_left, trim_right,
}
use revproxy.Config.{
  Config, Listen, Admin, Log, Global, TlsConfig, Route, Proxy, BackendConfig, HealthCheck,
}
use revproxy.Config.Password.{Crypto, hash_password}

-- `if s == "" { s = d }`
abbrev pub or_default : Bytes → Bytes → Bytes
or_default d s = if is_empty s then d else s

-- The cryptography, and what the calls of the random generator give: the secret, the bytes of a
-- salt, and for each place the hexadecimal digits of an id.
pub record Entropy : Type 0 where
  pub secret : Bytes
  pub crypto : Crypto
  pub salt : Option Bytes
  pub route_digits : ℕ → Bytes
  pub proxy_digits : ℕ → Bytes

unfoldable pub new_id : Bytes → Bytes → Bytes
new_id prefix digits = prefix ++ b'_' ∷ digits

-- strings.Trim(s, "/")
unfoldable pub trim_slashes : Bytes → Bytes
trim_slashes s = trim_left b'/' (trim_right b'/' s)

unfoldable pub normalize_listen : Listen → Listen
unfolding trim_slashes
normalize_listen l = record l {
  addr = or_default (codes ":8080") l.addr;
  admin_path = b'/' ∷ trim_slashes (or_default (codes "/__admin") l.admin_path);
}

unfoldable pub normalize_admin : Entropy → Admin → Admin
normalize_admin e a = record a {
  username = or_default (codes "admin") a.username;
  pass_hash = or_default (hash_password e.crypto e.salt (codes "admin123")) a.pass_hash;
  secret = or_default e.secret a.secret;
  session_ttl = default_to 12 a.session_ttl;
}

unfoldable pub normalize_log : Log → Log
normalize_log l = record l {
  level = or_default (codes "info") l.level;
  buffer = default_to 500 l.buffer;
}

pub normalize_global : Global → Global
normalize_global g = record g {
  max_idle_conns = default_to 200 g.max_idle_conns;
  dial_timeout = default_to 10 g.dial_timeout;
  keep_alive = default_to 30 g.keep_alive;
}

abbrev pub is_zero : ℤ → Bool
is_zero (pos n) = elim n [ zero ↦ true | suc _ ↦ false ]
is_zero _ = false

pub normalize_tls : TlsConfig → TlsConfig
normalize_tls t = record t { http_port = if is_zero t.http_port then pos 80 else t.http_port }

pub normalize_health : HealthCheck → HealthCheck
normalize_health h = record h {
  interval = default_to 10 h.interval;
  timeout = default_to 3 h.timeout;
  fails = default_to 3 h.fails;
  passes = default_to 2 h.passes;
}

pub normalize_backend : BackendConfig → BackendConfig
normalize_backend b = record b { weight = default_to 1 b.weight }

-- The scheme of a route that takes its target from the path.
pub normalize_scheme : Bytes → Bytes → Bytes
normalize_scheme mode scheme =
    if bytes_eq mode (codes "domain_in_path")
      && (not (bytes_eq scheme (codes "http")) && not (bytes_eq scheme (codes "https")))
    then codes "http"
    else scheme

abbrev pub or_now : ℕ → Option ℕ → Option ℕ
or_now now none = some now
or_now now (some t) = some t

unfoldable pub normalize_route : Bytes → ℕ → Route → Route
unfolding new_id normalize_health normalize_backend normalize_scheme
normalize_route digits now r = record r {
  id = or_default (new_id (codes "rt") digits) r.id;
  match_kind = or_default (codes "prefix") r.match_kind;
  scheme = normalize_scheme r.mode r.scheme;
  lb = or_default (codes "round_robin") r.lb;
  path = or_default (codes "/") r.path;
  health = normalize_health r.health;
  backends = map normalize_backend r.backends;
  created_at = or_now now r.created_at;
  updated_at = some now;
}

pub normalize_proxy : Bytes → Proxy → Proxy
unfolding new_id
normalize_proxy digits p = record p {
  id = or_default (new_id (codes "px") digits) p.id;
  proxy_type = or_default (codes "socks5") p.proxy_type;
  timeout = default_to 10 p.timeout;
}

unfoldable pub normalize_routes : (ℕ → Bytes) → ℕ → ℕ → List Route → List Route
unfolding normalize_route
normalize_routes digits now i [] = []
normalize_routes digits now i (r ∷ rs) =
    normalize_route (digits i) now r ∷ normalize_routes digits now (i + 1) rs

pub normalize_proxies : (ℕ → Bytes) → ℕ → List Proxy → List Proxy
unfolding normalize_proxy
normalize_proxies digits i [] = []
normalize_proxies digits i (p ∷ ps) =
    normalize_proxy (digits i) p ∷ normalize_proxies digits (i + 1) ps

-- The test by which the routes are ordered.
unfoldable pub route_less : Route → Route → Bool
route_less a b =
    if not (eqb_ℤ a.priority b.priority)
    then ltb_ℤ b.priority a.priority
    else if not (is_empty a.host) && is_empty b.host
    then true
    else ltb (length b.path) (length a.path)

-- `stable_sort` is `sort.SliceStable` on the routes.
module _ (stable_sort : (Route → Route → Bool) → List Route → List Route) where
  unfoldable pub normalize : Entropy → ℕ → Config → Config
  unfolding normalize_listen normalize_admin normalize_log normalize_global normalize_tls
      normalize_routes normalize_proxies
  normalize e now c = record c {
    listen = normalize_listen c.listen;
    admin = normalize_admin e c.admin;
    log = normalize_log c.log;
    global = normalize_global c.global;
    tls = normalize_tls c.tls;
    proxies = normalize_proxies e.proxy_digits 0 c.proxies;
    routes = stable_sort route_less (normalize_routes e.route_digits now 0 c.routes);
  }
