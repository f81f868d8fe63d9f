-- ===== src/Admin.antt =====
-- The administration API of internal/admin/server.go: its requests, its state, the guards, and the
-- steps that its handlers share. JSON is a parameter, and so is what package `config` and the engine need.
pub mod Routes
pub mod Proxies
pub mod Settings
pub mod Trial
pub mod Site
pub mod Changes
pub mod Api
mod Tests
use revproxy.Prelude.{
  ℕ, ◌+◌, Bool, true, false, ◌||◌, List, [], ◌∷◌, ◌++◌, Option, none, some, if◌then◌else◌, ℤ, not,
  Bytes, codes, bytes_eq, is_empty, has_prefix, trim_prefix,
}
use revproxy.Config.{Config, Listen, Log, Global, TlsConfig, Route, Proxy}
use revproxy.Config.Password.{Crypto}
use revproxy.Config.Store.{Codec, Store, Env, update, clone}
use revproxy.Backend.{Url, SocksConfig}
use revproxy.Access.{Net}
use revproxy.Host.{contains}
use revproxy.Serve.{Engine}
use revproxy.Reload.{ReloadError, HealthTarget, reload_engine, after, no_elements}
use revproxy.Stats.{AccessLog}
use revproxy.Auth.{PasswordError, unix, verify}

-- The body of `settings`.
pub record SettingsBody : Type 0 where
  pub listen : Listen
  pub log : Log
  pub global : Global
  pub tls : TlsConfig
  pub session_ttl : Option ℤ

-- The body of `import`: the JSON texts of its two parts.
pub record ImportBody : Type 0 where
  pub config : Option Bytes
  pub raw : Option Bytes

pub record LoginBody : Type 0 where
  pub user : Bytes
  pub pass : Bytes

pub record PasswordBody : Type 0 where
  pub old_pass : Bytes
  pub new_pass : Bytes
  pub new_user : Bytes

-- The bodies of `proxy-test` and `upstream-test`.
pub record ProxyTrial : Type 0 where
  pub id : Bytes
  pub proxy : SocksConfig
  pub target : Bytes

pub record UpstreamTrial : Type 0 where
  pub url : Bytes
  pub proxy_id : Bytes
  pub path : Bytes
  pub insecure : Bool
  pub method : Bytes

-- What the program uses of other packages; a decoder answers `none` for an error.
pub record Tools : Type 1 where
  pub net : Net
  pub parse_url : Bytes → Option Url
  pub compiles : Bytes → Bool
  pub codec : Codec
  pub stable_sort : (Route → Route → Bool) → List Route → List Route
  pub crypto : Crypto
  pub read_route : Bytes → Option Route
  pub read_proxy : Bytes → Option Proxy
  pub read_config : Bytes → Option Config
  pub read_login : Bytes → Option LoginBody
  pub read_settings : Bytes → Option SettingsBody
  pub read_password : Bytes → Option PasswordBody
  pub read_proxy_trial : Bytes → Option ProxyTrial
  pub read_upstream_trial : Bytes → Option UpstreamTrial
  pub read_import : Bytes → Option ImportBody

-- A request: the method, the parts of its header that are read, the `limit` of its query and its body.
pub record AdminRequest : Type 0 where
  pub method : Bytes
  pub cookie : Bytes
  pub authorization : Bytes
  pub admin_header : Bytes
  pub content_type : Bytes
  pub limit : Bytes
  pub body : Bytes

-- What one request gets from the system: the time, what each of two updates gets, a salt, and the
-- digits of a new id.
pub record Call : Type 0 where
  pub now : ℕ
  pub env : Env
  pub again : Env
  pub salt : Option Bytes
  pub digits : Bytes

pub data Problem : Type 0 where
  bad_method bad_body bad_login no_session no_header not_found unknown_api not_saved : Problem
  nothing_to_import bad_config not_reread : Problem
  has_errors : List ReloadError → Problem
  password_error : PasswordError → Problem

pub data Payload : Type 0 where
  nothing done overview system : Payload
  proxy_tried : SocksConfig → Bytes → Payload
  upstream_tried : UpstreamTrial → Payload
  token_for : Bytes → Bytes → Payload
  new_token me : Bytes → Payload
  all_routes : List Route → Payload
  one_route : Route → Payload
  all_proxies : List Proxy → Payload
  one_proxy : Proxy → Payload
  shown_config whole_config : Config → Payload
  log_entries : Option (List AccessLog) → Payload
  saved_settings : Bool → Payload
  problem : Problem → Payload

-- The status, the body, and the value and the age of a cookie that is set.
pub record Reply : Type 0 where
  pub status : ℕ
  pub payload : Payload
  pub cookie : Option (Bytes × ℤ)

abbrev pub ok : Payload → Reply
ok p = record { status = 200; payload = p; cookie = none }

abbrev pub fail : ℕ → Problem → Reply
fail status p = record { status = status; payload = problem p; cookie = none }

abbrev pub method_is : AdminRequest → Bytes → Bool
method_is r m = bytes_eq r.method m

unfoldable pub csrf_ok : AdminRequest → Bool
unfolding contains
csrf_ok r =
    if method_is r (codes "GET") || method_is r (codes "HEAD")
    then true
    else if not (is_empty r.admin_header)
    then true
    else contains (codes "application/json") r.content_type

-- The first address that is free after the routes.
pub first_free : ℕ → List Route → ℕ
first_free key [] = key
first_free key (rc ∷ rcs) = first_free (after key rc) rcs

module _ (t : Tools) where
  -- The store, the engine with the health checker's targets, and the next free address.
  pub record World : Type 0 where
    pub store : Store
    pub engine : Engine t.net
    pub targets : List HealthTarget
    pub fresh : ℕ

  unfoldable pub bearer_user : ℕ → World → Bytes → Option Bytes
  bearer_user now w auth =
      if has_prefix (codes "Bearer ") auth
      then verify t.crypto now w.store.cfg.admin (trim_prefix (codes "Bearer ") auth)
      else none

  unfoldable pub current_user : ℕ → World → AdminRequest → Option Bytes
  unfolding bearer_user
  current_user now w r =
      elim (if is_empty r.cookie then none else verify t.crypto now w.store.cfg.admin r.cookie) [
        | none ↦ bearer_user now w r.authorization
        | some user ↦ some user
      ]

  -- store.Update
  unfoldable pub save : Env → (Config → Config × Bool) → World → World × Bool
  save env fn w =
      let (s, saved) = update t.codec t.stable_sort env fn w.store in
      (record w { store = s }, saved)

  -- engine.Reload(cfg)
  unfoldable pub apply : Config → World → World × List ReloadError
  unfolding first_free
  apply cfg w =
      let (e, targets, errors) = reload_engine t.net t.parse_url t.compiles cfg w.fresh w.engine in
      (record w { engine = e; targets = targets; fresh = first_free w.fresh cfg.routes }, errors)

  unfoldable pub or_errors : Reply → World × List ReloadError → World × Reply
  or_errors reply (w, []) = (w, reply)
  or_errors reply (w, e ∷ es) = (w, fail 400 (has_errors (e ∷ es)))

  -- The engine takes the configuration in force over, and its errors are reported.
  unfoldable pub apply_loudly : Reply → World → World × Reply
  apply_loudly reply w = or_errors reply (apply w.store.cfg w)

  -- The same, and its errors are dropped.
  unfoldable pub apply_quietly : Reply → World → World × Reply
  apply_quietly reply w = ((apply w.store.cfg w).0, reply)

  -- What follows an update, unless that failed.
  unfoldable pub then_finish : (World → World × Reply) → World × Bool → World × Reply
  then_finish finish (w, true) = finish w
  then_finish finish (w, false) = (w, fail 500 not_saved)

  -- The same where the id may not be there.
  unfoldable pub then_found : Bool → (World → World × Reply) → World × Bool → World × Reply
  then_found true finish r = then_finish finish r
  then_found false finish r = then_finish (λ w. (w, fail 404 not_found)) r

  -- What an update finds: the copy of the configuration that it changes.
  abbrev pub copied : World → Config
  copied w = (clone t.codec t.stable_sort w.store.cfg).0
