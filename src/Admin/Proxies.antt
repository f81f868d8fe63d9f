-- ===== src/Admin/Proxies.antt =====
-- The handlers of proxies, `handleProxies` and `handleProxyByID` of internal/admin/server.go.
use revproxy.Prelude.{
  Bool, true, false, List, [], ◌∷◌, ◌++◌, Option, none, some, if◌then◌else◌, Bytes, codes, bytes_eq,
}
use revproxy.Config.{Config, Proxy, proxy_by_id}
use revproxy.Config.Normalize.{new_id}
use revproxy.Admin.{
  Tools, AdminRequest, Call, Reply, World, ok, fail, bad_method, bad_body, nothing, all_proxies,
  one_proxy, save, apply_quietly, then_finish, then_found, copied, method_is,
}

-- The first proxy with that id, replaced.
pub put_first_proxy : Bytes → Proxy → List Proxy → List Proxy
put_first_proxy id p [] = []
put_first_proxy id p (q ∷ qs) =
    let rest = put_first_proxy id p qs in if bytes_eq q.id id then p ∷ qs else q ∷ rest

pub without_proxy : Bytes → List Proxy → List Proxy
without_proxy id [] = []
without_proxy id (q ∷ qs) =
    let rest = without_proxy id qs in if bytes_eq q.id id then rest else q ∷ rest

pub has_proxy : Bytes → Config → Bool
unfolding proxy_by_id
has_proxy id c = elim (proxy_by_id id c.proxies) [ none ↦ false | some p ↦ true ]

-- What the updates do to the copy.
pub append_proxy : Proxy → Config → Config × Bool
append_proxy p c = (record c { proxies = c.proxies ++ p ∷ [] }, true)

pub replace_proxy : Bytes → Proxy → Config → Config × Bool
unfolding put_first_proxy
replace_proxy id p c = (record c { proxies = put_first_proxy id p c.proxies }, true)

-- A proxy that was the default for all is so no longer.
pub delete_proxy : Bytes → Config → Config × Bool
unfolding without_proxy
delete_proxy id c = (
  record c {
    proxies = without_proxy id c.proxies;
    global = record c.global {
      default_proxy = if bytes_eq c.global.default_proxy id then [] else c.global.default_proxy;
    };
  },
  true,
)

module _ (t : Tools) where
  unfoldable pub post_proxy : Call → World t → Option Proxy → World t × Reply
  unfolding append_proxy new_id
  post_proxy call w none = (w, fail 400 bad_body)
  post_proxy call w (some given) =
      let p = record given { id = new_id (codes "px") call.digits } in
      then_finish t (apply_quietly t (ok (one_proxy p))) (save t call.env (append_proxy p) w)

  unfoldable pub handle_proxies : Call → World t → AdminRequest → World t × Reply
  unfolding post_proxy
  handle_proxies call w r =
      if method_is r (codes "GET")
      then (w, ok (all_proxies w.store.cfg.proxies))
      else if method_is r (codes "POST")
      then post_proxy call w (t.read_proxy r.body)
      else (w, fail 405 bad_method)

  unfoldable pub put_proxy : Call → World t → Bytes → Option Proxy → World t × Reply
  unfolding replace_proxy has_proxy
  put_proxy call w id none = (w, fail 400 bad_body)
  put_proxy call w id (some given) =
      let p = record given { id = id } in
      then_found t (has_proxy id (copied t w)) (apply_quietly t (ok (one_proxy p)))
        (save t call.env (replace_proxy id p) w)

  unfoldable pub remove_proxy : Call → World t → Bytes → World t × Reply
  unfolding delete_proxy has_proxy
  remove_proxy call w id =
      then_found t (has_proxy id (copied t w)) (apply_quietly t (ok nothing))
        (save t call.env (delete_proxy id) w)

  unfoldable pub handle_proxy_by_id : Call → World t → AdminRequest → Bytes → World t × Reply
  unfolding put_proxy remove_proxy
  handle_proxy_by_id call w r id =
      if method_is r (codes "PUT")
      then put_proxy call w id (t.read_proxy r.body)
      else if method_is r (codes "DELETE")
      then remove_proxy call w id
      else (w, fail 405 bad_method)
