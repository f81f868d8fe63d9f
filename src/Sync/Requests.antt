-- ===== src/Sync/Requests.antt =====
-- Every request to the administration API keeps the newest announcement in force, as long as the
-- channel of main.go has room for what it announces.
use revproxy.Prelude.{
  arith, Bool, true, false, not, Option, none, some, Bytes, codes, is_empty, bytes_eq, Bool-cases,
  Option-cases, inl, inr,
}
use revproxy.Config.{Config}
use revproxy.Config.Store.{Store}
use revproxy.Config.Normalize.{trim_slashes}
use revproxy.Auth.{Changed, refused, granted}
use revproxy.Auth.Change.{change_password-store}
use revproxy.Admin.{
  Tools, AdminRequest, Call, World, SettingsBody, PasswordBody, save, method_is, current_user,
  csrf_ok,
}
use revproxy.Admin.Settings.{
  handle_config, handle_settings, handle_password, handle_import, handle_reload, clear_logs,
  put_config, put_settings, put_password, password_changed, rename, import_config, import_text,
  reread,
}
use revproxy.Admin.Api.{
  Endpoint, to_me, to_logout, to_overview, to_config, to_routes, to_proxies, to_proxy_test,
  to_upstream_test, to_logs, to_clear, to_password, to_settings, to_reload, to_export, to_import,
  to_system, unknown, to_route, to_proxy, serve_endpoint, api,
}
use revproxy.Sync.Steps.{IsSynced, IsSynced-weaken, Copies, save-IsSynced, reload-IsSynced}
use revproxy.Sync.Replies.{Fine, Fine-if, apply_loudly-Keeps, saved-Fine, kept}
use revproxy.Sync.Handlers.{
  handle_routes-Fine, handle_route_by_id-Fine, handle_proxies-Fine, handle_proxy_by_id-Fine,
}

module _ (t : Tools) (copies : Copies t) where
  put_config-Fine :
      (call : Call) (w : World t) (o : Option Config)
      → IsSynced t 1 w
      → Fine t (put_config t call w o)
  unfolding put_config
  put_config-Fine call w none h = kept t copies w _ h
  put_config-Fine call w (some given) h =
      saved-Fine t copies call.env _ _ w (apply_loudly-Keeps t _) h

  handle_config-Fine :
      (call : Call) (w : World t) (r : AdminRequest)
      → IsSynced t 1 w
      → Fine t (handle_config t call w r)
  unfolding handle_config
  handle_config-Fine call w r h =
      Fine-if t (method_is r (codes "GET")) _ _ (kept t copies w _ h) (
        Fine-if t (method_is r (codes "PUT")) _ _ (put_config-Fine call w _ h)
          (kept t copies w _ h))

  put_settings-Fine :
      (call : Call) (w : World t) (o : Option SettingsBody)
      → IsSynced t 1 w
      → Fine t (put_settings t call w o)
  unfolding put_settings
  put_settings-Fine call w none h = kept t copies w _ h
  put_settings-Fine call w (some b) h =
      saved-Fine t copies call.env _ _ w (λ v. apply_loudly-Keeps t _ v) h

  handle_settings-Fine :
      (call : Call) (w : World t) (r : AdminRequest)
      → IsSynced t 1 w
      → Fine t (handle_settings t call w r)
  unfolding handle_settings
  handle_settings-Fine call w r h =
      Fine-if t (not (method_is r (codes "PUT"))) _ _ (kept t copies w _ h)
        (put_settings-Fine call w _ h)

  import_config-Fine :
      (call : Call) (w : World t) (o : Option Bytes)
      → IsSynced t 1 w
      → Fine t (import_config t call w o)
  unfolding import_config
  import_config-Fine call w none h = kept t copies w _ h
  import_config-Fine call w (some text) h = elim (Option-cases (t.codec.unmarshal text)) [
    | inl bad ↦ rw (import_config, bad) (kept t copies w _ h)
    | inr (given, e) ↦
        rw (import_config, e) (saved-Fine t copies call.env _ _ w (apply_loudly-Keeps t _) h)
  ]

  handle_import-Fine :
      (call : Call) (w : World t) (r : AdminRequest)
      → IsSynced t 1 w
      → Fine t (handle_import t call w r)
  unfolding handle_import
  handle_import-Fine call w r h = elim (Option-cases (t.read_import r.body)) [
    | inl bad ↦
        rw (handle_import, bad)
          (Fine-if t (not (method_is r (codes "POST"))) _ _ (kept t copies w _ h)
            (kept t copies w _ h))
    | inr (b, e) ↦
        rw (handle_import, e)
          (Fine-if t (not (method_is r (codes "POST"))) _ _ (kept t copies w _ h)
            (import_config-Fine call w (import_text b) h))
  ]

  reread-Fine :
      (w : World t) (r : Store × Bool)
      → IsSynced t 0 (record w { store = r.0 })
      → Fine t (reread t w r)
  unfolding reread
  reread-Fine w (s, true) h = apply_loudly-Keeps t _ (record w { store = s }) h
  reread-Fine w (s, false) h = record { synced = h }

  handle_reload-Fine :
      (call : Call) (w : World t) (r : AdminRequest)
      → IsSynced t 1 w
      → Fine t (handle_reload t call w r)
  unfolding handle_reload
  handle_reload-Fine call w r h =
      Fine-if t (not (method_is r (codes "POST"))) _ _ (kept t copies w _ h)
        (reread-Fine w _ (reload-IsSynced t 0 call.env w h))

  clear_logs-Fine : (w : World t) (r : AdminRequest) → IsSynced t 1 w → Fine t (clear_logs t w r)
  unfolding clear_logs
  clear_logs-Fine w r h =
      Fine-if t (not (method_is r (codes "POST"))) _ _ (kept t copies w _ h) (record {
        synced = record {
          subscribed = h.subscribed;
          room = omega (arith, h.room);
          synced = h.synced;
        };
      })

  -- A change of the password announces two configurations where the name changes as well.
  abbrev Renamed : World t × Bytes → Type 0
  Renamed r = IsSynced t 0 r.0

  rename-Renamed :
      (call : Call) (w : World t) (user tok : Bytes)
      → IsSynced t 1 w
      → IsSynced t 0 (rename t call w user tok).0
  unfolding rename
  rename-Renamed call w user tok h = elim (Bool-cases (is_empty user)) [
    | inl bare ↦ rw (rename, bare) (IsSynced-weaken t 1 0 w (omega arith) h)
    | inr full ↦ rw (rename, full) (save-IsSynced t copies 0 call.again _ w h)
  ]

  password_changed-Fine :
      (call : Call) (w : World t) (user : Bytes) (r : Store × Changed)
      → IsSynced t 1 (record w { store = r.0 })
      → Fine t (password_changed t call w user r)
  unfolding password_changed
  password_changed-Fine call w user (s, refused e) h = kept t copies (record w { store = s }) _ h
  password_changed-Fine call w user (s, granted tok) h = record {
    synced = rename-Renamed call (record w { store = s }) user tok h;
  }

  put_password-Fine :
      (call : Call) (w : World t) (o : Option PasswordBody)
      → IsSynced t 2 w
      → Fine t (put_password t call w o)
  unfolding put_password save
  put_password-Fine call w none h = kept t copies w _ (IsSynced-weaken t 2 1 w (omega arith) h)
  put_password-Fine call w (some b) h = password_changed-Fine call w b.new_user _ (
      change_password-store t.crypto t.codec t.stable_sort
        (λ (s : Store). IsSynced t 1 (record w { store = s })) call.env call.now call.salt
        b.old_pass b.new_pass w.store (IsSynced-weaken t 2 1 w (omega arith) h)
        (save-IsSynced t copies 1 call.env _ w h))

  handle_password-Fine :
      (call : Call) (w : World t) (r : AdminRequest)
      → IsSynced t 2 w
      → Fine t (handle_password t call w r)
  unfolding handle_password
  handle_password-Fine call w r h =
      Fine-if t (not (method_is r (codes "POST"))) _ _
        (kept t copies w _ (IsSynced-weaken t 2 1 w (omega arith) h)) (put_password-Fine call w _ h)

  serve_endpoint-Fine :
      (call : Call) (w : World t) (r : AdminRequest) (user : Bytes) (e : Endpoint)
      → IsSynced t 1 w
      → IsSynced t 2 w
      → Fine t (serve_endpoint t call w r user e)
  unfolding serve_endpoint
  serve_endpoint-Fine call w r user to_me h k = kept t copies w _ h
  serve_endpoint-Fine call w r user to_logout h k = kept t copies w _ h
  serve_endpoint-Fine call w r user to_overview h k = kept t copies w _ h
  serve_endpoint-Fine call w r user to_config h k = handle_config-Fine call w r h
  serve_endpoint-Fine call w r user to_routes h k = handle_routes-Fine t copies call w r h
  serve_endpoint-Fine call w r user (to_route tail) h k =
      handle_route_by_id-Fine t copies call w r tail h
  serve_endpoint-Fine call w r user to_proxies h k = handle_proxies-Fine t copies call w r h
  serve_endpoint-Fine call w r user (to_proxy id) h k =
      handle_proxy_by_id-Fine t copies call w r id h
  serve_endpoint-Fine call w r user to_proxy_test h k = kept t copies w _ h
  serve_endpoint-Fine call w r user to_upstream_test h k = kept t copies w _ h
  serve_endpoint-Fine call w r user to_logs h k = kept t copies w _ h
  serve_endpoint-Fine call w r user to_clear h k = clear_logs-Fine w r h
  serve_endpoint-Fine call w r user to_password h k = handle_password-Fine call w r k
  serve_endpoint-Fine call w r user to_settings h k = handle_settings-Fine call w r h
  serve_endpoint-Fine call w r user to_reload h k = handle_reload-Fine call w r h
  serve_endpoint-Fine call w r user to_export h k = kept t copies w _ h
  serve_endpoint-Fine call w r user to_import h k = handle_import-Fine call w r h
  serve_endpoint-Fine call w r user to_system h k = kept t copies w _ h
  serve_endpoint-Fine call w r user unknown h k = kept t copies w _ h

  pub api-IsSynced :
      (call : Call) (w : World t) (r : AdminRequest) (path : Bytes)
      → IsSynced t 2 w
      → IsSynced t 0 (api t call w r path).0
  unfolding api
  api-IsSynced call w r path h =
      let less = IsSynced-weaken t 2 1 w (omega arith) h in
      let none_left = IsSynced-weaken t 2 0 w (omega arith) h in
      elim (Bool-cases (bytes_eq (trim_slashes path) (codes "login"))) [
        | inl in_login ↦ rw (api, in_login) none_left
        | inr other ↦ elim (Option-cases (current_user t call.now w r)) [
          | inl nobody ↦ rw (api, other, nobody) none_left
          | inr (user, e) ↦ elim (Bool-cases (csrf_ok r)) [
            | inr unmarked ↦ rw (api, other, e, unmarked) none_left
            | inl marked ↦
                rw (api, other, e, marked) ((serve_endpoint-Fine call w r user _ less h).synced)
          ]
        ]
      ]
