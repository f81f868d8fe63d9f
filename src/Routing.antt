-- ===== src/Routing.antt =====
-- The choice of a route and the URL for its upstream, internal/proxy/engine.go. Package `regexp` is
-- a parameter: `regex_match re path`.
pub mod Specific
pub mod Ranked
pub mod Target
pub mod Dynamic
pub mod Proxies
mod Tests
use revproxy.Prelude.{
  ℕ, zero, suc, ◌+◌, ◌^◌, ◌≡◌, Bool, true, false, ◌&&◌, ◌||◌, not, List, [], ◌∷◌, ◌++◌, Option,
  none, some, ltb, ◌==◌, if◌then◌else◌, length, Bytes, codes, bytes_eq, is_empty, has_prefix,
  trim_prefix, trim_left, trim_right, cut_at, has_byte,
}
use revproxy.Config.{Config, Route, DomainRule, Proxy, proxy_by_id}
use revproxy.Host.{Request, host_match}
use revproxy.Backend.{Url, SocksConfig}

-- What routing reads of a handler: its address, its route, and the compiled pattern if there is one.
pub record Matcher : Type 0 where
  pub key : ℕ
  pub cfg : Route
  pub path_re : Option Bytes

-- The score of a route that fits; `none` is the `continue` of the exact case.
pub score : Matcher → Request → Option ℕ
score h r =
    if bytes_eq h.cfg.match_kind (codes "exact")
    then (if bytes_eq r.path h.cfg.path then some (2 ^ 30) else none)
    else if bytes_eq h.cfg.match_kind (codes "regex")
    then some 0
    else if bytes_eq h.cfg.path (codes "/")
    then some 1
    else some (length h.cfg.path)

-- score > bestScore, where no best score yet is -1.
pub beats : ℕ → Option (Matcher × ℕ) → Bool
beats s none = true
beats s (some (_, t)) = ltb t s

module _ (regex_match : Bytes → Bytes → Bool) where
  pub match_path : Matcher → Bytes → Bool
  match_path h p =
      if bytes_eq h.cfg.match_kind (codes "exact")
      then bytes_eq p h.cfg.path
      else if bytes_eq h.cfg.match_kind (codes "regex")
      then (elim h.path_re [ none ↦ false | some re ↦ regex_match re p ])
      else if bytes_eq h.cfg.path (codes "/")
      then true
      else has_prefix h.cfg.path p

  -- RouteHandler.match
  pub matches : Matcher → Request → Bool
  unfolding match_path
  matches h r = h.cfg.enabled && (host_match h.cfg.host r.host && match_path h r.path)

  -- One round of the loop of Engine.match.
  pub consider : Request → Matcher → Option (Matcher × ℕ) → Option (Matcher × ℕ)
  unfolding beats
  consider r h best =
      if matches h r
      then (elim (score h r) [ none ↦ best | some s ↦ if beats s best then some (h, s) else best ])
      else best

  pub match_from : Request → List Matcher → Option (Matcher × ℕ) → Option (Matcher × ℕ)
  match_from r [] best = best
  match_from r (h ∷ hs) best = match_from r hs (consider r h best)

  -- Engine.match
  pub match_route : Request → List Matcher → Option Matcher
  unfolding match_from
  match_route r hs = elim (match_from r hs none) [ none ↦ none | some (h, _) ↦ some h ]

-- A path that begins with a slash is left alone.
pub with_slash : Bytes → Bytes
with_slash s = if has_prefix (codes "/") s then s else b'/' ∷ s

abbrev pub or_root : Bytes → Bytes
or_root s = if is_empty s then codes "/" else s

-- The new path of applyOutURL, before the base path of the node.
pub inner_path : Route → Bytes → Bytes
unfolding with_slash
inner_path cfg orig =
    if not (is_empty cfg.rewrite)
    then or_root (trim_right b'/' cfg.rewrite ++ with_slash (trim_prefix cfg.path orig))
    else if cfg.strip_path
    then or_root (with_slash (trim_prefix cfg.path orig))
    else orig

-- applyOutURL
pub apply_out_url : Route → Url → Url → Url
unfolding inner_path
apply_out_url cfg base out = record {
  scheme = base.scheme;
  host = base.host;
  path = trim_right b'/' base.path ++ inner_path cfg out.path;
}

-- routePathInner
pub route_path_inner : Bytes → Bytes → Bytes
unfolding with_slash
route_path_inner full_path prefix =
    if is_empty prefix || bytes_eq prefix (codes "/")
    then full_path
    else (let rest = trim_prefix prefix full_path in
        if is_empty rest then codes "/" else with_slash rest)

pub has_any : Bytes → Bytes → Bool
has_any cut [] = false
has_any cut (c ∷ s) = has_byte c cut || has_any cut s

pub before_slash : Bytes → Bytes
before_slash raw = elim (cut_at b'/' raw) [ none ↦ raw | some (l, _) ↦ l ]

abbrev pub blanks : Bytes
blanks = 32 ∷ 9 ∷ 13 ∷ 10 ∷ []

-- The target domain in a path; the empty text stands for none.
pub domain_in : Bytes → Bytes
unfolding has_any before_slash
domain_in inner =
    let domain = before_slash (trim_prefix (codes "/") inner) in
    if is_empty domain || (has_prefix (codes ".") domain || has_any blanks domain)
    then []
    else domain

-- dynDomainOf
pub dyn_domain_of : Bytes → Bytes → Bytes
unfolding route_path_inner domain_in
dyn_domain_of prefix path = domain_in (route_path_inner path prefix)

-- The answer of resolveProxyFn: the proxy, `none` for a direct connection, and its name for the log.
pub data Via : Type 0 where
  direct : Via
  direct_missing : Via
  via : SocksConfig → Bytes → Via

abbrev direct_id : Bytes
direct_id = codes "__direct__"

-- Config.Empty of internal/socks/socks5.go, for a configuration that is there.
unfoldable pub socks_empty : SocksConfig → Bool
socks_empty c = is_empty c.proxy_type || (bytes_eq c.proxy_type (codes "direct") || is_empty c.addr)

pub via_proxy : Option Proxy → Via
unfolding socks_empty
via_proxy none = direct_missing
via_proxy (some p) =
    let sc : SocksConfig = record {
      proxy_type = p.proxy_type;
      addr = p.addr;
      username = p.username;
      password = p.password;
      timeout = p.timeout;
    } in
    if socks_empty sc then direct else via sc p.name

unfoldable pub resolve_proxy : Config → Bytes → Via
unfolding via_proxy
resolve_proxy cfg id =
    if bytes_eq id direct_id
    then direct
    else (let chosen = if is_empty id then cfg.global.default_proxy else id in
        if is_empty chosen || bytes_eq chosen direct_id
        then direct
        else via_proxy (proxy_by_id chosen cfg.proxies))

-- The id of the proxy of the first rule that fits, or that of the route.
pub rule_proxy : Bytes → Bytes → List DomainRule → Bytes
rule_proxy dom fallback [] = fallback
rule_proxy dom fallback (rule ∷ rules) =
    if host_match rule.pattern_host dom then rule.proxy_id else rule_proxy dom fallback rules

-- resolveDynProxy
unfoldable pub resolve_dyn_proxy : Config → Route → Bytes → Via
unfolding rule_proxy
resolve_dyn_proxy cfg r dom = resolve_proxy cfg (rule_proxy dom r.proxy_id r.domain_rules)

pub route_scheme : Bytes → Bytes
route_scheme scheme = if bytes_eq scheme (codes "https") then codes "https" else codes "http"

pub rule_scheme : Bytes → Bytes → List DomainRule → Bytes
unfolding route_scheme
rule_scheme dom scheme [] = route_scheme scheme
rule_scheme dom scheme (rule ∷ rules) =
    if not (is_empty rule.scheme) && host_match rule.pattern_host dom
    then rule.scheme
    else rule_scheme dom scheme rules

-- dynSchemeOf
pub dyn_scheme_of : Route → Bytes → Bytes
unfolding rule_scheme
dyn_scheme_of r dom = rule_scheme dom r.scheme r.domain_rules

pub from_slash : Bytes → Bytes
from_slash rest = elim (cut_at b'/' rest) [ none ↦ [] | some (_, r) ↦ r ]

-- The URL of rewriteDynamic.
pub rewrite_dynamic : Route → Bytes → Url
unfolding from_slash dyn_domain_of dyn_scheme_of
rewrite_dynamic r path =
    let dom = dyn_domain_of r.path path in
    record {
      scheme = dyn_scheme_of r dom;
      host = dom;
      path = or_root (from_slash (trim_prefix (codes "/") (route_path_inner path r.path)));
    }
