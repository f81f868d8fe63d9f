-- ===== src/Admin/Api/Guarded.antt =====
-- Who can change anything through the administration API of internal/admin/server.go.
use revproxy.Prelude.{
  ℕ, ◌≡◌, ◌≢◌, ◌⊎◌, inl, inr, refl, sym, subst, arith, Bool, true, false, ◌||◌, [], none, some,
  if◌then◌else◌, Bytes, codes, bytes_eq, bytes_eq_iff, is_empty, has_prefix, trim_prefix,
  Bool-cases, Option-cases,
}
use revproxy.Config.Normalize.{trim_slashes}
use revproxy.Auth.{verify}
use revproxy.Auth.Session.{IsSession, verify_iff}
use revproxy.Host.{contains}
use revproxy.Admin.{Tools, AdminRequest, Call, World, csrf_ok, current_user, bearer_user, method_is}
use revproxy.Admin.Routes.{handle_routes, handle_route_by_id, toggle, duplicate, get_route}
use revproxy.Admin.Proxies.{handle_proxies, handle_proxy_by_id}
use revproxy.Admin.Settings.{
  handle_config, handle_settings, handle_password, handle_import, handle_reload, clear_logs,
}
use revproxy.Admin.Api.{
  Endpoint, to_me, to_logout, to_overview, to_config, to_routes, to_proxies, to_proxy_test,
  to_upstream_test, to_logs, to_clear, to_password, to_settings, to_reload, to_export, to_import,
  to_system, unknown, to_route, to_proxy, serve_endpoint, api,
}

-- A method that only reads.
abbrev reads : AdminRequest → Bool
reads r = method_is r (codes "GET") || method_is r (codes "HEAD")

record IsReading (r : AdminRequest) : Type 0 where
  post : method_is r (codes "POST") ≡ false
  put : method_is r (codes "PUT") ≡ false
  delete : method_is r (codes "DELETE") ≡ false

IsReading-of :
    (r : AdminRequest) (m : Bytes)
    → r.method ≡ m
    → bytes_eq m (codes "POST") ≡ false
    → bytes_eq m (codes "PUT") ≡ false
    → bytes_eq m (codes "DELETE") ≡ false
    → IsReading r
IsReading-of r m e a b c = record {
  post = subst (λ (x : Bytes). bytes_eq x (codes "POST") ≡ false) (sym e) a;
  put = subst (λ (x : Bytes). bytes_eq x (codes "PUT") ≡ false) (sym e) b;
  delete = subst (λ (x : Bytes). bytes_eq x (codes "DELETE") ≡ false) (sym e) c;
}

reads-IsReading : (r : AdminRequest) → reads r ≡ true → IsReading r
unfolding bytes_eq
reads-IsReading r h = elim (Bool-cases (method_is r (codes "GET"))) [
  | inl get ↦
      IsReading-of r (codes "GET") ((bytes_eq_iff r.method (codes "GET")).0 get) refl refl refl
  | inr other ↦
      IsReading-of r (codes "HEAD") ((bytes_eq_iff r.method (codes "HEAD")).0 (ground arith)) refl
        refl refl
]

writes_get : (r : AdminRequest) → reads r ≡ false → r.method ≢ codes "GET"
writes_get r h e =
    let got = (bytes_eq_iff r.method (codes "GET")).1 e in absurd (ground (arith, got))

writes_head : (r : AdminRequest) → reads r ≡ false → r.method ≢ codes "HEAD"
writes_head r h e =
    let got = (bytes_eq_iff r.method (codes "HEAD")).1 e in absurd (ground (arith, got))

bare_not_full : {s : Bytes} → s ≡ [] → ¬ (is_empty s ≡ false)
bare_not_full e h = cc

module _ (t : Tools) where
  -- The token of a session stands in the cookie, or behind `Bearer ` in the header.
  abbrev pub Carries : AdminRequest → Bytes → Type 0
  Carries r token =
      (r.cookie ≡ token)
      ⊎ ((has_prefix (codes "Bearer ") r.authorization ≡ true)
          × (trim_prefix (codes "Bearer ") r.authorization ≡ token))

  current_user-IsSession :
      (now : ℕ) (w : World t) (r : AdminRequest) (user : Bytes)
      → current_user t now w r ≡ some user
      → (token : Bytes) × (Carries r token
          × IsSession t.crypto now w.store.cfg.admin.secret user token)
  unfolding current_user bearer_user
  current_user-IsSession now w r user e =
      let adm = w.store.cfg.admin in
      let c = if is_empty r.cookie then none else verify t.crypto now adm r.cookie in
      elim (Option-cases c) [
        | inr (other, f) ↦
            (r.cookie, (inl refl, (verify_iff t.crypto now adm user r.cookie).0 (ground arith)))
        | inl no_cookie ↦ elim (Bool-cases (has_prefix (codes "Bearer ") r.authorization)) [
          | inl bearer ↦ (
            trim_prefix (codes "Bearer ") r.authorization,
            (
              inr (bearer, refl),
              (verify_iff t.crypto now adm user (trim_prefix (codes "Bearer ") r.authorization)).0
                  (ground arith),
            ),
          )
          | inr bare ↦ absurd (ground arith)
        ]
      ]

  handle_routes-reads :
      (call : Call) (w : World t) (r : AdminRequest)
      → IsReading r
      → (handle_routes t call w r).0 ≡ w
  unfolding handle_routes
  handle_routes-reads call w r v = ground (arith, v.post)

  handle_proxies-reads :
      (call : Call) (w : World t) (r : AdminRequest)
      → IsReading r
      → (handle_proxies t call w r).0 ≡ w
  unfolding handle_proxies
  handle_proxies-reads call w r v = ground (arith, v.post)

  handle_route_by_id-reads :
      (call : Call) (w : World t) (r : AdminRequest) (tail : Bytes)
      → IsReading r
      → (handle_route_by_id t call w r tail).0 ≡ w
  unfolding handle_route_by_id toggle duplicate get_route
  handle_route_by_id-reads call w r tail v = ground (arith, v.post, v.put, v.delete)

  handle_proxy_by_id-reads :
      (call : Call) (w : World t) (r : AdminRequest) (id : Bytes)
      → IsReading r
      → (handle_proxy_by_id t call w r id).0 ≡ w
  unfolding handle_proxy_by_id
  handle_proxy_by_id-reads call w r id v = ground (arith, v.put, v.delete)

  handle_config-reads :
      (call : Call) (w : World t) (r : AdminRequest)
      → IsReading r
      → (handle_config t call w r).0 ≡ w
  unfolding handle_config
  handle_config-reads call w r v = ground (arith, v.put)

  handle_settings-reads :
      (call : Call) (w : World t) (r : AdminRequest)
      → IsReading r
      → (handle_settings t call w r).0 ≡ w
  unfolding handle_settings
  handle_settings-reads call w r v = rw (v.put) refl

  handle_password-reads :
      (call : Call) (w : World t) (r : AdminRequest)
      → IsReading r
      → (handle_password t call w r).0 ≡ w
  unfolding handle_password
  handle_password-reads call w r v = rw (v.post) refl

  handle_import-reads :
      (call : Call) (w : World t) (r : AdminRequest)
      → IsReading r
      → (handle_import t call w r).0 ≡ w
  unfolding handle_import
  handle_import-reads call w r v = rw (v.post) refl

  handle_reload-reads :
      (call : Call) (w : World t) (r : AdminRequest)
      → IsReading r
      → (handle_reload t call w r).0 ≡ w
  unfolding handle_reload
  handle_reload-reads call w r v = rw (v.post) refl

  clear_logs-reads : (w : World t) (r : AdminRequest) → IsReading r → (clear_logs t w r).0 ≡ w
  unfolding clear_logs
  clear_logs-reads w r v = rw (v.post) refl

  -- A request to read leaves everything as it is.
  serve_endpoint-reads :
      (call : Call) (w : World t) (r : AdminRequest) (user : Bytes) (e : Endpoint)
      → IsReading r
      → (serve_endpoint t call w r user e).0 ≡ w
  unfolding serve_endpoint
  serve_endpoint-reads call w r user to_me v = refl
  serve_endpoint-reads call w r user to_logout v = refl
  serve_endpoint-reads call w r user to_overview v = refl
  serve_endpoint-reads call w r user to_config v = handle_config-reads call w r v
  serve_endpoint-reads call w r user to_routes v = handle_routes-reads call w r v
  serve_endpoint-reads call w r user (to_route tail) v = handle_route_by_id-reads call w r tail v
  serve_endpoint-reads call w r user to_proxies v = handle_proxies-reads call w r v
  serve_endpoint-reads call w r user (to_proxy id) v = handle_proxy_by_id-reads call w r id v
  serve_endpoint-reads call w r user to_proxy_test v = refl
  serve_endpoint-reads call w r user to_upstream_test v = refl
  serve_endpoint-reads call w r user to_logs v = refl
  serve_endpoint-reads call w r user to_clear v = clear_logs-reads w r v
  serve_endpoint-reads call w r user to_password v = handle_password-reads call w r v
  serve_endpoint-reads call w r user to_settings v = handle_settings-reads call w r v
  serve_endpoint-reads call w r user to_reload v = handle_reload-reads call w r v
  serve_endpoint-reads call w r user to_export v = refl
  serve_endpoint-reads call w r user to_import v = handle_import-reads call w r v
  serve_endpoint-reads call w r user to_system v = refl
  serve_endpoint-reads call w r user unknown v = refl

  csrf_ok-marked :
      (r : AdminRequest)
      → csrf_ok r ≡ true
      → reads r ≡ false
      → (r.admin_header ≢ []) ⊎ (contains (codes "application/json") r.content_type ≡ true)
  unfolding csrf_ok
  csrf_ok-marked r h k = elim (Bool-cases (is_empty r.admin_header)) [
    | inl bare ↦ inr (ground arith)
    | inr full ↦ inl (λ e. absurd (bare_not_full e full))
  ]

  -- A request to the administration API changes nothing of the configuration, the engine, the log or
  -- the file, unless it carries the token of a session under the secret in force, asks for something other
  -- than to read, and has the header `X-Revproxy-Admin` or a content type with `application/json`.
  pub api_guarded :
      (call : Call) (w : World t) (r : AdminRequest) (path : Bytes)
      → ((api t call w r path).0 ≡ w)
        ⊎ (((user : Bytes) × ((token : Bytes) × (Carries r token
                  × IsSession t.crypto call.now w.store.cfg.admin.secret user token)))
            × ((r.method ≢ codes "GET")
                × ((r.method ≢ codes "HEAD")
                    × ((r.admin_header ≢ [])
                        ⊎ (contains (codes "application/json") r.content_type ≡ true)))))
  unfolding api
  api_guarded call w r path = elim (Bool-cases (bytes_eq (trim_slashes path) (codes "login"))) [
    | inl in_login ↦ inl (rw in_login refl)
    | inr other ↦ elim (Option-cases (current_user t call.now w r)) [
      | inl nobody ↦ inl (rw (other, nobody) refl)
      | inr (user, e) ↦ elim (Bool-cases (csrf_ok r)) [
        | inr unmarked ↦ inl (rw (other, e, unmarked) refl)
        | inl marked ↦ elim (Bool-cases (reads r)) [
          | inl only ↦ inl (
              rw (other, e, marked) (serve_endpoint-reads call w r user _ (reads-IsReading r only)))
          | inr writes ↦ inr (
            (user, current_user-IsSession call.now w r user e),
            (writes_get r writes, (writes_head r writes, csrf_ok-marked r marked writes)),
          )
        ]
      ]
    ]
  ]
