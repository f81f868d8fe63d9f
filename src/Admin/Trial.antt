-- ===== src/Admin/Trial.antt =====
-- The handlers that try a proxy or an upstream node, `handleProxyTest` and `handleUpstreamTest` of
-- internal/admin/server.go. Their replies hold what is tried; what comes of it is up to the network.
use revproxy.Prelude.{◌&&◌, not, Option, none, some, if◌then◌else◌, Bytes, codes, is_empty}
use revproxy.Config.{Config, Proxy, proxy_by_id}
use revproxy.Admin.{
  Tools, AdminRequest, Reply, World, ProxyTrial, ok, fail, bad_method, bad_body, proxy_tried,
  upstream_tried, method_is,
}

-- The settings of the proxy of that id, where there is one.
abbrev pub from_proxy : Option Proxy → ProxyTrial → ProxyTrial
from_proxy none b = b
from_proxy (some p) b = record b {
  proxy = record {
    proxy_type = p.proxy_type;
    addr = p.addr;
    username = p.username;
    password = p.password;
    timeout = p.timeout;
  };
}

-- An id stands for the settings of its proxy, unless an address is given.
pub filled : Config → ProxyTrial → ProxyTrial
unfolding proxy_by_id
filled cfg b =
    if not (is_empty b.id) && is_empty b.proxy.addr
    then from_proxy (proxy_by_id b.id cfg.proxies) b
    else b

pub target_of : ProxyTrial → Bytes
target_of b = if is_empty b.target then codes "www.cloudflare.com:443" else b.target

module _ (t : Tools) where
  unfoldable pub handle_proxy_test : World t → AdminRequest → Reply
  unfolding filled target_of
  handle_proxy_test w r =
      if not (method_is r (codes "POST"))
      then fail 405 bad_method
      else elim (t.read_proxy_trial r.body) [
        | none ↦ fail 400 bad_body
        | some b ↦ let full = filled w.store.cfg b in ok (proxy_tried full.proxy (target_of full))
      ]

  unfoldable pub handle_upstream_test : AdminRequest → Reply
  handle_upstream_test r =
      if not (method_is r (codes "POST"))
      then fail 405 bad_method
      else elim (t.read_upstream_trial r.body) [
        | none ↦ fail 400 bad_body
        | some b ↦ ok (upstream_tried b)
      ]
