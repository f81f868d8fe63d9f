-- ===== src/Admin/Api.antt =====
-- The dispatch of the administration API, `api` of internal/admin/server.go.
pub mod Guarded
use revproxy.Prelude.{
  ℕ, Bool, true, false, not, List, [], ◌∷◌, Option, none, some, if◌then◌else◌, ℤ, pos, negsuc,
  Bytes, codes, bytes_eq, is_empty, has_prefix, trim_prefix,
}
use revproxy.Config.Normalize.{trim_slashes}
use revproxy.Admin.{
  Tools, AdminRequest, Call, Reply, World, ok, fail, bad_method, bad_body, no_session, no_header,
  unknown_api, nothing, me, overview, system, whole_config, csrf_ok, current_user, method_is,
}
use revproxy.Admin.Routes.{handle_routes, handle_route_by_id}
use revproxy.Admin.Proxies.{handle_proxies, handle_proxy_by_id}
use revproxy.Admin.Trial.{handle_proxy_test, handle_upstream_test}
use revproxy.Admin.Settings.{
  handle_login, handle_config, handle_settings, handle_password, handle_import, handle_reload,
  handle_logs, clear_logs,
}

-- What the rest of the path asks for.
pub data Endpoint : Type 0 where
  to_me to_logout to_overview to_config to_routes to_proxies to_proxy_test to_upstream_test to_logs
        to_clear :
      Endpoint
  to_password to_settings to_reload to_export to_import to_system unknown : Endpoint
  to_route to_proxy : Bytes → Endpoint

-- The paths with no argument.
pub plain_endpoint : Bytes → List (Bytes × Endpoint) → Endpoint
plain_endpoint seg [] = unknown
plain_endpoint seg ((name, e) ∷ rest) =
    let later = plain_endpoint seg rest in if bytes_eq seg name then e else later

abbrev pub endpoints : List (Bytes × Endpoint)
endpoints =
    (codes "me", to_me)
    ∷ (codes "logout", to_logout)
    ∷ (codes "overview", to_overview)
    ∷ (codes "config", to_config)
    ∷ (codes "routes", to_routes)
    ∷ (codes "proxies", to_proxies)
    ∷ (codes "proxy-test", to_proxy_test)
    ∷ (codes "upstream-test", to_upstream_test)
    ∷ (codes "logs", to_logs)
    ∷ (codes "logs/clear", to_clear)
    ∷ (codes "password", to_password)
    ∷ (codes "settings", to_settings)
    ∷ (codes "reload", to_reload)
    ∷ (codes "export", to_export)
    ∷ (codes "import", to_import)
    ∷ (codes "system", to_system)
    ∷ []

-- No path with no argument begins like one that has an argument.
pub endpoint : Bytes → Endpoint
unfolding plain_endpoint
endpoint seg =
    if has_prefix (codes "routes/") seg
    then to_route (trim_prefix (codes "routes/") seg)
    else if has_prefix (codes "proxies/") seg
    then to_proxy (trim_prefix (codes "proxies/") seg)
    else plain_endpoint seg endpoints

abbrev pub logged_out : Reply
logged_out = record { status = 200; payload = nothing; cookie = some ([], negsuc 0) }

module _ (t : Tools) where
  unfoldable pub serve_endpoint : Call → World t → AdminRequest → Bytes → Endpoint → World t × Reply
  serve_endpoint call w r user to_me = (w, ok (me user))
  serve_endpoint call w r user to_logout = (w, logged_out)
  serve_endpoint call w r user to_overview = (w, ok overview)
  serve_endpoint call w r user to_config = handle_config t call w r
  serve_endpoint call w r user to_routes = handle_routes t call w r
  serve_endpoint call w r user (to_route tail) = handle_route_by_id t call w r tail
  serve_endpoint call w r user to_proxies = handle_proxies t call w r
  serve_endpoint call w r user (to_proxy id) = handle_proxy_by_id t call w r id
  serve_endpoint call w r user to_proxy_test = (w, handle_proxy_test t w r)
  serve_endpoint call w r user to_upstream_test = (w, handle_upstream_test t r)
  serve_endpoint call w r user to_logs = (w, handle_logs t w r)
  serve_endpoint call w r user to_clear = clear_logs t w r
  serve_endpoint call w r user to_password = handle_password t call w r
  serve_endpoint call w r user to_settings = handle_settings t call w r
  serve_endpoint call w r user to_reload = handle_reload t call w r
  serve_endpoint call w r user to_export = (w, ok (whole_config w.store.cfg))
  serve_endpoint call w r user to_import = handle_import t call w r
  serve_endpoint call w r user to_system = (w, ok system)
  serve_endpoint call w r user unknown = (w, fail 404 unknown_api)

  unfoldable pub api : Call → World t → AdminRequest → Bytes → World t × Reply
  unfolding endpoint serve_endpoint
  api call w r path =
      let seg = trim_slashes path in
      if bytes_eq seg (codes "login")
      then (w, handle_login t call w r)
      else elim (current_user t call.now w r) [
        | none ↦ (w, fail 401 no_session)
        | some user ↦
            if csrf_ok r
            then serve_endpoint call w r user (endpoint seg)
            else (w, fail 403 no_header)
      ]
