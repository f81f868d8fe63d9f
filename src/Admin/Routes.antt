-- ===== src/Admin/Routes.antt =====
-- The handlers of routes, `handleRoutes` and `handleRouteByID` of internal/admin/server.go.
use revproxy.Prelude.{
  ℕ, Bool, true, false, not, List, [], ◌∷◌, ◌++◌, Option, none, some, if◌then◌else◌, Bytes, codes,
  bytes_eq,
}
use revproxy.Config.{Config, Route, route_by_id}
use revproxy.Config.Normalize.{new_id}
use revproxy.Config.Password.{split_once}
use revproxy.Auth.{unix}
use revproxy.Admin.{
  Tools, AdminRequest, Call, Reply, World, ok, fail, bad_method, bad_body, not_found, nothing,
  all_routes, one_route, save, apply_loudly, apply_quietly, then_finish, then_found, copied,
  method_is,
}

-- The first route with that id, changed.
pub change_route : Bytes → (Route → Route) → List Route → List Route
change_route id f [] = []
change_route id f (r ∷ rs) =
    let rest = change_route id f rs in if bytes_eq r.id id then f r ∷ rs else r ∷ rest

-- The routes with another id.
unfoldable pub without_route : Bytes → List Route → List Route
without_route id [] = []
without_route id (r ∷ rs) =
    let rest = without_route id rs in if bytes_eq r.id id then rest else r ∷ rest

unfoldable pub has_route : Bytes → Config → Bool
unfolding route_by_id
has_route id c = elim (route_by_id id c.routes) [ none ↦ false | some r ↦ true ]

-- The id and the action in the rest of the path: what stands before the first slash, and between it
-- and the second.
pub id_and_action : Bytes → Bytes × Bytes
unfolding split_once
id_and_action tail = elim (split_once b'/' tail) [
  | none ↦ (tail, [])
  | some (id, rest) ↦ elim (split_once b'/' rest) [
    | none ↦ (id, rest)
    | some (action, more) ↦ (id, action)
  ]
]

-- What the updates do to the copy.
pub append_route : Route → Config → Config × Bool
append_route rt c = (record c { routes = c.routes ++ rt ∷ [] }, true)

pub toggle_route : ℕ → Bytes → Config → Config × Bool
unfolding change_route
toggle_route now id c = (
  record c {
    routes =
        change_route id (λ r. record r { enabled = not r.enabled; updated_at = some now }) c.routes;
  },
  true,
)

-- The copy of a route under a new id; its name gets " 副本" behind it.
pub duplicate_of : Call → Route → Route
unfolding new_id
duplicate_of call r = record r {
  id = new_id (codes "rt") call.digits;
  name = r.name ++ 32 ∷ 229 ∷ 137 ∷ 175 ∷ 230 ∷ 156 ∷ 172 ∷ [];
  created_at = some (unix call.now);
  updated_at = some (unix call.now);
}

pub duplicate_route : Call → Bytes → Config → Config × Bool
unfolding duplicate_of
duplicate_route call id c = elim (route_by_id id c.routes) [
  | none ↦ (c, false)
  | some r ↦ (record c { routes = c.routes ++ duplicate_of call r ∷ [] }, true)
]

-- A replacement keeps the time of creation where it has none of its own.
pub replacement : Route → Route → Route
replacement rt old = record rt {
  created_at = elim rt.created_at [ none ↦ old.created_at | some at ↦ some at ];
}

pub replace_route : Bytes → Route → Config → Config × Bool
unfolding change_route replacement
replace_route id rt c = (record c { routes = change_route id (replacement rt) c.routes }, true)

-- The route that the reply shows.
pub replaced : Bytes → Route → Config → Route
unfolding replacement
replaced id rt c = elim (route_by_id id c.routes) [ none ↦ rt | some old ↦ replacement rt old ]

unfoldable pub delete_route : Bytes → Config → Config × Bool
unfolding without_route
delete_route id c = (record c { routes = without_route id c.routes }, true)

module _ (t : Tools) where
  unfoldable pub post_route : Call → World t → Option Route → World t × Reply
  unfolding append_route new_id
  post_route call w none = (w, fail 400 bad_body)
  post_route call w (some given) =
      let rt = record given {
        id = new_id (codes "rt") call.digits;
        created_at = some (unix call.now);
        updated_at = some (unix call.now);
      } in
      then_finish t (apply_loudly t (ok (one_route rt))) (save t call.env (append_route rt) w)

  unfoldable pub handle_routes : Call → World t → AdminRequest → World t × Reply
  unfolding post_route
  handle_routes call w r =
      if method_is r (codes "GET")
      then (w, ok (all_routes w.store.cfg.routes))
      else if method_is r (codes "POST")
      then post_route call w (t.read_route r.body)
      else (w, fail 405 bad_method)

  unfoldable pub toggle : Call → World t → AdminRequest → Bytes → World t × Reply
  unfolding toggle_route has_route
  toggle call w r id =
      if not (method_is r (codes "POST"))
      then (w, fail 405 bad_method)
      else then_found t (has_route id (copied t w)) (apply_quietly t (ok nothing))
          (save t call.env (toggle_route (unix call.now) id) w)

  -- A copy that is not saved is reported as a route that is not there.
  unfoldable pub duplicated : Option Route → Call → World t × Bool → World t × Reply
  duplicated none call (w, saved) = (w, fail 404 not_found)
  duplicated (some r) call (w, false) = (w, fail 404 not_found)
  duplicated (some r) call (w, true) = apply_quietly t (ok (one_route (duplicate_of call r))) w

  unfoldable pub duplicate : Call → World t → AdminRequest → Bytes → World t × Reply
  unfolding duplicate_route
  duplicate call w r id =
      if not (method_is r (codes "POST"))
      then (w, fail 405 bad_method)
      else duplicated (route_by_id id (copied t w).routes) call
          (save t call.env (duplicate_route call id) w)

  unfoldable pub get_route : World t → Bytes → World t × Reply
  unfolding route_by_id
  get_route w id = elim (route_by_id id w.store.cfg.routes) [
    | none ↦ (w, fail 404 not_found)
    | some rt ↦ (w, ok (one_route rt))
  ]

  unfoldable pub put_route : Call → World t → Bytes → Option Route → World t × Reply
  unfolding replace_route replaced has_route
  put_route call w id none = (w, fail 400 bad_body)
  put_route call w id (some given) =
      let rt = record given { id = id; updated_at = some (unix call.now) } in
      then_found t (has_route id (copied t w))
        (apply_loudly t (ok (one_route (replaced id rt (copied t w)))))
        (save t call.env (replace_route id rt) w)

  unfoldable pub remove_route : Call → World t → Bytes → World t × Reply
  unfolding delete_route has_route
  remove_route call w id =
      then_found t (has_route id (copied t w)) (apply_quietly t (ok nothing))
        (save t call.env (delete_route id) w)

  unfoldable pub handle_route_by_id : Call → World t → AdminRequest → Bytes → World t × Reply
  unfolding id_and_action toggle duplicate get_route put_route remove_route
  handle_route_by_id call w r tail =
      let (id, action) = id_and_action tail in
      if bytes_eq action (codes "toggle")
      then toggle call w r id
      else if bytes_eq action (codes "duplicate")
      then duplicate call w r id
      else if method_is r (codes "GET")
      then get_route w id
      else if method_is r (codes "PUT")
      then put_route call w id (t.read_route r.body)
      else if method_is r (codes "DELETE")
      then remove_route call w id
      else (w, fail 405 bad_method)
