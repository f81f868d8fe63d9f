-- ===== src/Reload.antt =====
-- The handlers of a configuration, `Reload` of internal/proxy/engine.go. Parameters: `url.Parse`, the
-- test whether package `regexp` compiles a pattern, and the addresses of package `net`.
-- Handlers and nodes get their addresses from a counter.
pub mod Built
pub mod Complete
mod Tests
use revproxy.Prelude.{
  ℕ, zero, suc, ◌+◌, ◌≡◌, Bool, true, false, ◌&&◌, not, List, [], ◌∷◌, ◌++◌, Option, none, some,
  if◌then◌else◌, length, pos, Bytes, codes, bytes_eq, is_empty,
}
use revproxy.Config.{Config, Route, BackendConfig, HealthCheck}
use revproxy.Backend.{Url, SocksConfig, Backend, new_backend}
use revproxy.Host.{trim_space}
use revproxy.Access.{Net, new_ip_matcher}
use revproxy.Limiter.{Limiter, new_limiter}
use revproxy.Pool.{Pool, new_pool}
use revproxy.Routing.{Via, direct, direct_missing, via, resolve_proxy}
use revproxy.Serve.{Handler, Engine, via_name}

-- The errors that are put together into the one that `Reload` returns; those of the nodes of a
-- route are counted.
pub data ReloadError : Type 0 where
  no_backends bad_regex : Bytes → ReloadError
  bad_backends : ℕ → ReloadError

-- The pair that `resolveProxyFn` answers.
unfoldable pub via_pair : Via → Option SocksConfig × Bytes
via_pair direct = (none, via_name direct)
via_pair direct_missing = (none, via_name direct_missing)
via_pair (via sc name) = (some sc, via_name (via sc name))

-- The proxy of a node, or else that of its route.
pub node_proxy : Route → BackendConfig → Bytes
node_proxy rc b = let pid = trim_space b.proxy_id in if is_empty pid then rc.proxy_id else pid

abbrev pub is_dynamic : Route → Bool
is_dynamic rc = bytes_eq rc.mode (codes "domain_in_path")

abbrev pub no_elements : {A : Type 0} → List A → Bool
no_elements [] = true
no_elements (_ ∷ _) = false

-- The first address after those of a route.
abbrev pub after : ℕ → Route → ℕ
after key rc = key + 2 + length rc.backends

-- The node that stands for the target of a route that takes it from the path.
abbrev pub dynamic_node : BackendConfig
dynamic_node = record {
  url = codes "http://__dynamic__/";
  weight = pos 0;
  proxy_id = [];
  backup = false;
}

pub record HealthTarget : Type 0 where
  pub handler : ℕ
  pub route_id : Bytes
  pub route : Bytes
  pub cfg : HealthCheck
  pub insecure : Bool

module _ (n : Net) (parse_url : Bytes → Option Url) (compiles : Bytes → Bool) (cfg : Config) where
  -- newBackend with the proxy of that id.
  pub build_node : Bytes → ℕ → BackendConfig → Option Backend
  unfolding via_pair
  build_node pid key b = new_backend parse_url (λ _. via_pair (resolve_proxy cfg pid)) key b

  -- The nodes that could be made, and the number of errors.
  pub build_nodes : Route → ℕ → List BackendConfig → List Backend × ℕ
  build_nodes rc key [] = ([], 0)
  build_nodes rc key (b ∷ bs) =
      let (nodes, errors) = build_nodes rc (key + 1) bs in
      elim (build_node (node_proxy rc b) key b) [
        | none ↦ (nodes, errors + 1)
        | some x ↦ (x ∷ nodes, errors)
      ]

  pub or_dynamic : Route → ℕ → List Backend × ℕ → List Backend × ℕ
  or_dynamic rc key (nodes, errors) =
      if no_elements nodes && is_dynamic rc
      then (elim (build_node rc.proxy_id key dynamic_node) [
        | none ↦ ([], errors + 1)
        | some x ↦ (x ∷ [], errors)
      ])
      else (nodes, errors)

  pub path_pattern : Route → Option Bytes
  path_pattern rc =
      if bytes_eq rc.match_kind (codes "regex") && compiles rc.path then some rc.path else none

  pub regex_errors : Route → List ReloadError
  regex_errors rc =
      if bytes_eq rc.match_kind (codes "regex") && not (compiles rc.path)
      then bad_regex rc.name ∷ []
      else []

  pub make_handler : Route → ℕ → List Backend → Handler n
  unfolding path_pattern
  make_handler rc key nodes = record {
    matcher = record { key = key; cfg = rc; path_re = path_pattern rc };
    dyn_domain = is_dynamic rc;
    allow_ips = new_ip_matcher n rc.access.ip_allow;
    deny_ips = new_ip_matcher n rc.access.ip_deny;
    limiter = if rc.access.rate.enabled then some (new_limiter rc.access.rate) else none;
    pool = new_pool rc.lb nodes;
  }

  -- The end of a round of the loop over the routes.
  pub with_nodes : Route → ℕ → List Backend × ℕ → Option (Handler n) × List ReloadError
  unfolding make_handler regex_errors
  with_nodes rc key ([], errors) = (none, bad_backends errors ∷ [])
  with_nodes rc key (b ∷ bs, errors) = (some (make_handler rc key (b ∷ bs)), regex_errors rc)

  pub build_route : ℕ → Route → Option (Handler n) × List ReloadError
  build_route key rc =
      if no_elements rc.backends && not (is_dynamic rc)
      then (none, no_backends rc.name ∷ [])
      else with_nodes rc key (or_dynamic rc (key + 1) (build_nodes rc (key + 1) rc.backends))

  abbrev pub add_handler : Option (Handler n) → List (Handler n) → List (Handler n)
  add_handler none hs = hs
  add_handler (some h) hs = h ∷ hs

  unfoldable pub build_routes : ℕ → List Route → List (Handler n) × List ReloadError
  build_routes key [] = ([], [])
  build_routes key (rc ∷ rcs) =
      let (h, errors) = build_route key rc in
      let (hs, later) = build_routes (after key rc) rcs in (add_handler h hs, errors ++ later)

  unfoldable pub health_targets : List (Handler n) → List HealthTarget
  health_targets [] = []
  health_targets (h ∷ hs) =
      let rc = h.matcher.cfg in
      let rest = health_targets hs in
      if rc.health.enabled && not h.dyn_domain
      then record {
        handler = h.matcher.key;
        route_id = rc.id;
        route = rc.name;
        cfg = rc.health;
        insecure = rc.insecure_tls;
      }
        ∷ rest
      else rest

  -- Reload: the engine, what the health checker is set to, and the errors.
  unfoldable pub reload_engine : ℕ → Engine n → Engine n × List HealthTarget × List ReloadError
  unfolding build_routes health_targets
  reload_engine fresh e =
      let (hs, errors) = build_routes fresh cfg.routes in
      (record e { cfg = cfg; handlers = hs }, health_targets hs, errors)
