-- ===== src/Admin/Settings.antt =====
-- The handlers of the whole configuration, the settings, the password and the log, with `login`,
-- `reload` and `import`, in internal/admin/server.go.
use revproxy.Prelude.{
  suc, ◌/◌, Bool, true, false, not, Option, none, some, if◌then◌else◌, ◌||◌, ℤ, pos, negsuc,
  is_nonpos, minus_ℕ, Bytes, codes, bytes_eq, is_empty, parse_int,
}
use revproxy.Config.{Config, Listen}
use revproxy.Config.Store.{Store, reload}
use revproxy.Auth.{second, ttl, token, login, Changed, refused, granted, change_password}
use revproxy.Stats.{logs, clear}
use revproxy.Admin.{
  Tools, AdminRequest, Call, Reply, World, SettingsBody, ImportBody, PasswordBody, ok, fail,
  bad_method, bad_body, bad_login, bad_config, nothing_to_import, not_reread, password_error,
  nothing, done, token_for, new_token, Payload, shown_config, log_entries, saved_settings, save,
  apply_loudly, then_finish, method_is,
}

-- The whole seconds of a `time.Duration`.
pub whole_seconds : ℤ → ℤ
whole_seconds (pos n) = pos (n / second)
whole_seconds (negsuc n) = minus_ℕ (suc n / second)

-- What the update by `config` makes of the copy: all is new but the secret, and the password too if one is given.
unfoldable pub take_config : Config → Config → Config → Config × Bool
take_config old given c = (
  record given {
    admin = record given.admin {
      secret = old.admin.secret;
      pass_hash =
          if is_empty given.admin.pass_hash then old.admin.pass_hash else given.admin.pass_hash;
    };
  },
  true,
)

abbrev pub longer_session : Option ℤ → ℤ → ℤ
longer_session none old = old
longer_session (some h) old = if is_nonpos h then old else h

unfoldable pub take_settings : SettingsBody → Config → Config × Bool
take_settings b c = (
  record c {
    listen = b.listen;
    log = b.log;
    global = b.global;
    tls = b.tls;
    admin = record c.admin { session_ttl = longer_session b.session_ttl c.admin.session_ttl };
  },
  true,
)

unfoldable pub take_import : Config → Config → Config × Bool
take_import given c = (given, true)

pub take_user : Bytes → Config → Config × Bool
take_user user c = (record c { admin = record c.admin { username = user } }, true)

unfoldable pub need_restart : Listen → Listen → Bool
need_restart cur l = not (bytes_eq cur.addr l.addr) || not (bytes_eq cur.admin_addr l.admin_addr)

-- The text of the configuration in the body of an import.
abbrev pub import_text : ImportBody → Option Bytes
import_text b = elim b.config [ none ↦ b.raw | some text ↦ some text ]

pub limit_of : Bytes → ℤ
unfolding parse_int
limit_of v = elim (parse_int v) [ none ↦ pos 200 | some n ↦ if is_nonpos n then pos 200 else n ]

module _ (t : Tools) where
  abbrev pub with_token : World t → Bytes → Payload → Reply
  with_token w token payload = record {
    status = 200;
    payload = payload;
    cookie = some (token, whole_seconds (ttl w.store.cfg.admin));
  }

  unfoldable pub handle_login : Call → World t → AdminRequest → Reply
  unfolding whole_seconds
  handle_login call w r =
      if not (method_is r (codes "POST")) then fail 405 bad_method else elim (t.read_login r.body) [
        | none ↦ fail 400 bad_body
        | some b ↦ elim (login t.crypto call.now w.store.cfg.admin b.user b.pass) [
          | none ↦ fail 401 bad_login
          | some tok ↦ with_token w tok (token_for tok b.user)
        ]
      ]

  unfoldable pub put_config : Call → World t → Option Config → World t × Reply
  unfolding take_config
  put_config call w none = (w, fail 400 bad_body)
  put_config call w (some given) =
      then_finish t (apply_loudly t (ok done)) (save t call.env (take_config w.store.cfg given) w)

  unfoldable pub handle_config : Call → World t → AdminRequest → World t × Reply
  unfolding put_config
  handle_config call w r =
      if method_is r (codes "GET")
      then (w, ok (shown_config w.store.cfg))
      else if method_is r (codes "PUT")
      then put_config call w (t.read_config r.body)
      else (w, fail 405 bad_method)

  -- The reply tells whether the address in force differs from the one that was asked for.
  unfoldable pub put_settings : Call → World t → Option SettingsBody → World t × Reply
  unfolding take_settings need_restart
  put_settings call w none = (w, fail 400 bad_body)
  put_settings call w (some b) =
      then_finish t
        (λ v. apply_loudly t (ok (saved_settings (need_restart v.store.cfg.listen b.listen))) v)
        (save t call.env (take_settings b) w)

  unfoldable pub handle_settings : Call → World t → AdminRequest → World t × Reply
  unfolding put_settings
  handle_settings call w r =
      if not (method_is r (codes "PUT"))
      then (w, fail 405 bad_method)
      else put_settings call w (t.read_settings r.body)

  -- The user takes a new name, and that this fails goes unnoticed.
  unfoldable pub rename : Call → World t → Bytes → Bytes → World t × Bytes
  unfolding take_user
  rename call w user tok =
      if is_empty user
      then (w, tok)
      else (let (v, saved) = save t call.again (take_user user) w in
          (v, token t.crypto call.now v.store.cfg.admin user))

  unfoldable pub password_changed : Call → World t → Bytes → Store × Changed → World t × Reply
  password_changed call w user (s, refused e) =
      (record w { store = s }, fail 400 (password_error e))
  password_changed call w user (s, granted tok) =
      let (v, last) = rename call (record w { store = s }) user tok in
      (v, with_token v last (new_token last))

  unfoldable pub put_password : Call → World t → Option PasswordBody → World t × Reply
  unfolding rename
  put_password call w none = (w, fail 400 bad_body)
  put_password call w (some b) = password_changed call w b.new_user (
      change_password t.crypto t.codec t.stable_sort call.env call.now call.salt b.old_pass
        b.new_pass w.store)

  unfoldable pub handle_password : Call → World t → AdminRequest → World t × Reply
  unfolding put_password
  handle_password call w r =
      if not (method_is r (codes "POST"))
      then (w, fail 405 bad_method)
      else put_password call w (t.read_password r.body)

  unfoldable pub import_config : Call → World t → Option Bytes → World t × Reply
  unfolding take_import
  import_config call w none = (w, fail 400 nothing_to_import)
  import_config call w (some text) = elim (t.codec.unmarshal text) [
    | none ↦ (w, fail 400 bad_config)
    | some given ↦ then_finish t (apply_loudly t (ok done)) (save t call.env (take_import given) w)
  ]

  unfoldable pub handle_import : Call → World t → AdminRequest → World t × Reply
  unfolding import_config
  handle_import call w r =
      if not (method_is r (codes "POST"))
      then (w, fail 405 bad_method)
      else elim (t.read_import r.body) [
        | none ↦ (w, fail 400 bad_body)
        | some b ↦ import_config call w (import_text b)
      ]

  unfoldable pub reread : World t → Store × Bool → World t × Reply
  reread w (s, true) = apply_loudly t (ok done) (record w { store = s })
  reread w (s, false) = (record w { store = s }, fail 400 not_reread)

  unfoldable pub handle_reload : Call → World t → AdminRequest → World t × Reply
  handle_reload call w r =
      if not (method_is r (codes "POST"))
      then (w, fail 405 bad_method)
      else reread w (reload t.codec t.stable_sort call.env w.store)

  unfoldable pub handle_logs : World t → AdminRequest → Reply
  unfolding limit_of
  handle_logs w r =
      let limit = if is_empty r.limit then pos 200 else limit_of r.limit in
      ok (log_entries (logs w.engine.collector.ring limit))

  unfoldable pub clear_logs : World t → AdminRequest → World t × Reply
  clear_logs w r = if not (method_is r (codes "POST")) then (w, fail 405 bad_method) else (
    record w {
      engine = record w.engine {
        collector = record w.engine.collector { ring = clear w.engine.collector.ring };
      };
    },
    ok nothing,
  )
