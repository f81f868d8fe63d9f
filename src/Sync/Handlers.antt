-- ===== src/Sync/Handlers.antt =====
-- The handlers of routes and proxies keep the newest announcement in force, as long as the channel
-- of main.go has room for what they announce.
use revproxy.Prelude.{
  Bool, true, false, Option, none, some, Bytes, codes, bytes_eq, Option-cases, inl, inr,
}
use revproxy.Config.{Route, Proxy, route_by_id}
use revproxy.Admin.{Tools, AdminRequest, Call, World, method_is}
use revproxy.Admin.Routes.{
  handle_routes, handle_route_by_id, post_route, toggle, duplicate, duplicated, get_route,
  put_route, remove_route, id_and_action, duplicate_route,
}
use revproxy.Admin.Proxies.{handle_proxies, handle_proxy_by_id, post_proxy, put_proxy, remove_proxy}
use revproxy.Sync.Steps.{IsSynced, Copies, save-IsSynced}
use revproxy.Sync.Replies.{
  Fine, Fine-if, apply_loudly-Keeps, apply_quietly-Keeps, saved-Fine, found-Fine, kept,
}

module _ (t : Tools) (copies : Copies t) where
  pub post_route-Fine :
      (call : Call) (w : World t) (o : Option Route)
      → IsSynced t 1 w
      → Fine t (post_route t call w o)
  unfolding post_route
  post_route-Fine call w none h = kept t copies w _ h
  post_route-Fine call w (some given) h =
      saved-Fine t copies call.env _ _ w (apply_loudly-Keeps t _) h

  pub put_route-Fine :
      (call : Call) (w : World t) (id : Bytes) (o : Option Route)
      → IsSynced t 1 w
      → Fine t (put_route t call w id o)
  unfolding put_route
  put_route-Fine call w id none h = kept t copies w _ h
  put_route-Fine call w id (some given) h =
      found-Fine t copies _ call.env _ _ w (apply_loudly-Keeps t _) h

  pub remove_route-Fine :
      (call : Call) (w : World t) (id : Bytes) → IsSynced t 1 w → Fine t (remove_route t call w id)
  unfolding remove_route
  remove_route-Fine call w id h = found-Fine t copies _ call.env _ _ w (apply_quietly-Keeps t _) h

  pub toggle-Fine :
      (call : Call) (w : World t) (r : AdminRequest) (id : Bytes)
      → IsSynced t 1 w
      → Fine t (toggle t call w r id)
  unfolding toggle
  toggle-Fine call w r id h =
      Fine-if t _ _ _ (kept t copies w _ h)
        (found-Fine t copies _ call.env _ _ w (apply_quietly-Keeps t _) h)

  pub duplicated-Fine :
      (o : Option Route) (call : Call) (r : World t × Bool)
      → IsSynced t 0 r.0
      → Fine t (duplicated t o call r)
  unfolding duplicated
  duplicated-Fine none call (w, saved) h = record { synced = h }
  duplicated-Fine (some rt) call (w, false) h = record { synced = h }
  duplicated-Fine (some rt) call (w, true) h = apply_quietly-Keeps t _ w h

  pub duplicate-Fine :
      (call : Call) (w : World t) (r : AdminRequest) (id : Bytes)
      → IsSynced t 1 w
      → Fine t (duplicate t call w r id)
  unfolding duplicate
  duplicate-Fine call w r id h =
      Fine-if t _ _ _ (kept t copies w _ h)
        (duplicated-Fine _ call _ (save-IsSynced t copies 0 call.env (duplicate_route call id) w h))

  pub get_route-Fine : (w : World t) (id : Bytes) → IsSynced t 1 w → Fine t (get_route t w id)
  unfolding get_route
  get_route-Fine w id h = elim (Option-cases (route_by_id id w.store.cfg.routes)) [
    | inl absent ↦ rw (get_route, absent) (kept t copies w _ h)
    | inr (rt, e) ↦ rw (get_route, e) (kept t copies w _ h)
  ]

  pub handle_routes-Fine :
      (call : Call) (w : World t) (r : AdminRequest)
      → IsSynced t 1 w
      → Fine t (handle_routes t call w r)
  unfolding handle_routes
  handle_routes-Fine call w r h = Fine-if t (method_is r (codes "GET")) _ _ (kept t copies w _ h) (
      Fine-if t (method_is r (codes "POST")) _ _ (post_route-Fine call w _ h) (kept t copies w _ h))

  pub handle_route_by_id-Fine :
      (call : Call) (w : World t) (r : AdminRequest) (tail : Bytes)
      → IsSynced t 1 w
      → Fine t (handle_route_by_id t call w r tail)
  unfolding handle_route_by_id
  handle_route_by_id-Fine call w r tail h =
      let (id, action) = id_and_action tail in
      Fine-if t (bytes_eq action (codes "toggle")) _ _ (toggle-Fine call w r id h) (
        Fine-if t (bytes_eq action (codes "duplicate")) _ _ (duplicate-Fine call w r id h) (
          Fine-if t (method_is r (codes "GET")) _ _ (get_route-Fine w id h) (
            Fine-if t (method_is r (codes "PUT")) _ _ (put_route-Fine call w id _ h) (
              Fine-if t (method_is r (codes "DELETE")) _ _ (remove_route-Fine call w id h)
                (kept t copies w _ h)))))

  pub post_proxy-Fine :
      (call : Call) (w : World t) (o : Option Proxy)
      → IsSynced t 1 w
      → Fine t (post_proxy t call w o)
  unfolding post_proxy
  post_proxy-Fine call w none h = kept t copies w _ h
  post_proxy-Fine call w (some given) h =
      saved-Fine t copies call.env _ _ w (apply_quietly-Keeps t _) h

  pub put_proxy-Fine :
      (call : Call) (w : World t) (id : Bytes) (o : Option Proxy)
      → IsSynced t 1 w
      → Fine t (put_proxy t call w id o)
  unfolding put_proxy
  put_proxy-Fine call w id none h = kept t copies w _ h
  put_proxy-Fine call w id (some given) h =
      found-Fine t copies _ call.env _ _ w (apply_quietly-Keeps t _) h

  pub remove_proxy-Fine :
      (call : Call) (w : World t) (id : Bytes) → IsSynced t 1 w → Fine t (remove_proxy t call w id)
  unfolding remove_proxy
  remove_proxy-Fine call w id h = found-Fine t copies _ call.env _ _ w (apply_quietly-Keeps t _) h

  pub handle_proxies-Fine :
      (call : Call) (w : World t) (r : AdminRequest)
      → IsSynced t 1 w
      → Fine t (handle_proxies t call w r)
  unfolding handle_proxies
  handle_proxies-Fine call w r h = Fine-if t (method_is r (codes "GET")) _ _ (kept t copies w _ h) (
      Fine-if t (method_is r (codes "POST")) _ _ (post_proxy-Fine call w _ h) (kept t copies w _ h))

  pub handle_proxy_by_id-Fine :
      (call : Call) (w : World t) (r : AdminRequest) (id : Bytes)
      → IsSynced t 1 w
      → Fine t (handle_proxy_by_id t call w r id)
  unfolding handle_proxy_by_id
  handle_proxy_by_id-Fine call w r id h =
      Fine-if t (method_is r (codes "PUT")) _ _ (put_proxy-Fine call w id _ h) (
        Fine-if t (method_is r (codes "DELETE")) _ _ (remove_proxy-Fine call w id h)
          (kept t copies w _ h))
