-- ===== src/Routing/Proxies.antt =====
-- Which proxy a request takes, internal/proxy/engine.go.
use revproxy.Prelude.{
  ◌≡◌, ◌≢◌, true, List, [], ◌∷◌, none, arith, Bytes, codes, bytes_eq, bytes_eq_iff,
}
use revproxy.Config.{Config, Route, DomainRule, proxy_by_id}
use revproxy.Host.{host_match}
use revproxy.Routing.{direct_missing, via_proxy, resolve_proxy, rule_proxy, resolve_dyn_proxy}

-- The bug in a domain rule with no proxy of its own: the first rule that fits decides, and with an
-- empty id it leads to the global default, whatever the default of the route is, of which the
-- comment on the field says that it is used.
pub rule_skips_route :
    (cfg : Config) (r : Route) (dom id : Bytes) (rule : DomainRule) (rules : List DomainRule)
    → r.domain_rules ≡ rule ∷ rules
    → host_match rule.pattern_host dom ≡ true
    → rule.proxy_id ≡ []
    → resolve_dyn_proxy cfg (record r { proxy_id = id }) dom
      ≡ resolve_proxy cfg cfg.global.default_proxy
unfolding resolve_dyn_proxy resolve_proxy rule_proxy bytes_eq
rule_skips_route cfg r dom id rule rules e h z = rw (e, rule_proxy, h, z) (ground arith)

-- An id that is not empty is taken as it stands: `__direct__` means no proxy, and an id that no
-- proxy of the configuration has means none either, under a name that says so.
pub resolve_proxy_missing :
    (cfg : Config) (id : Bytes)
    → id ≢ []
    → id ≢ codes "__direct__"
    → proxy_by_id id cfg.proxies ≡ none
    → resolve_proxy cfg id ≡ direct_missing
unfolding resolve_proxy via_proxy
resolve_proxy_missing cfg id n d e = ground (arith, bytes_eq_iff id (codes "__direct__"))
