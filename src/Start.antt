-- ===== src/Start.antt =====
-- main.go: the configuration file and the flags, the choice of a handler for a request, the settings of
-- the servers and the address of the administration pages in the banner. `filepath.Join` is a
-- parameter.
pub mod Overrides
pub mod Dispatch
pub mod Banner
mod Tests
use revproxy.Prelude.{
  ℕ, Bool, true, false, ◌&&◌, ◌||◌, not, List, [], ◌∷◌, ◌++◌, Option, none, some, if◌then◌else◌,
  ◌==◌, ℤ, pos, ◌*ℤ◌, wrap64, is_nonpos, eqb_ℤ, Bytes, codes, bytes_eq, is_empty, has_prefix,
  has_byte, strip, show_ℤ,
}
use revproxy.Config.{Config, Route, Listen, Log}
use revproxy.Config.Normalize.{or_default}
use revproxy.Config.Store.{Codec, Store, Env, update}
use revproxy.Socks.Dial.{seconds_of}

pub record Flags : Type 0 where
  pub config : Bytes
  pub addr : Bytes
  pub admin_addr : Bytes
  pub data_dir : Bytes
  pub debug : Bool

pub record Environment : Type 0 where
  pub revproxy_config : Bytes
  pub revproxy_data : Bytes
  pub port : Bytes

-- The path of the configuration file.
unfoldable pub config_path : (Bytes → Bytes → Bytes) → Flags → Environment → Bytes
config_path join f e =
    let path = or_default e.revproxy_config f.config in
    if not (is_empty path)
    then path
    else (let dir = or_default (codes "data") (or_default e.revproxy_data f.data_dir) in
        join dir (codes "config.json"))

unfoldable pub with_colon : Bytes → Bytes
with_colon p = if has_byte b':' p then p else b':' ∷ p

unfoldable pub set_addr : Bytes → Config → Config
set_addr a c = record c { listen = record c.listen { addr = a } }

unfoldable pub set_admin_addr : Bytes → Config → Config
set_admin_addr a c = record c { listen = record c.listen { admin_addr = a } }

unfoldable pub set_debug : Config → Config
set_debug c = record c { log = record c.log { level = codes "debug" } }

module _ (k : Codec) (stable_sort : (Route → Route → Bool) → List Route → List Route) where
  -- store.Update with a closure that does not fail; its error is only logged, if at all.
  unfoldable pub change : Env → (Config → Config) → Store → Store
  change env f s = (update k stable_sort env (λ c. (f c, true)) s).0

  unfoldable pub override_addr : Env → Flags → Environment → Store → Store
  unfolding change set_addr with_colon
  override_addr env f e s =
      if not (is_empty f.addr)
      then change env (set_addr f.addr) s
      else if not (is_empty e.port)
      then change env (set_addr (with_colon e.port)) s
      else s

  unfoldable pub override_admin_addr : Env → Flags → Store → Store
  unfolding change set_admin_addr
  override_admin_addr env f s =
      if is_empty f.admin_addr then s else change env (set_admin_addr f.admin_addr) s

  unfoldable pub override_level : Env → Flags → Store → Store
  unfolding change set_debug
  override_level env f s = if f.debug then change env set_debug s else s

  -- The three in the order of the source; `envs` is what each call of `Update` gets from the system.
  unfoldable pub override : (ℕ → Env) → Flags → Environment → Store → Store
  unfolding override_addr override_admin_addr override_level
  override envs f e s =
      override_level (envs 2) f (override_admin_addr (envs 1) f (override_addr (envs 0) f e s))

-- mainHandler; the configuration is the one with which the program has started.
pub data Destination : Type 0 where
  to_admin to_echo to_engine : Destination

unfoldable pub dispatch : Config → Bytes → Destination
dispatch c p =
    if bytes_eq p c.listen.admin_path || has_prefix (c.listen.admin_path ++ codes "/") p
    then to_admin
    else if c.global.enable_echo
        && (bytes_eq p (codes "/__echo") || has_prefix (codes "/__echo/") p)
    then to_echo
    else to_engine

-- `seconds`
unfoldable pub seconds : ℤ → ℤ
seconds n = if is_nonpos n then pos 0 else seconds_of n

pub record ServerSettings : Type 0 where
  pub addr : Bytes
  pub read_timeout : ℤ
  pub write_timeout : ℤ
  pub idle_timeout : ℤ
  pub max_header_bytes : ℤ

unfoldable pub main_server : Config → ServerSettings
unfolding seconds wrap64 ◌*ℤ◌
main_server c = record {
  addr = c.listen.addr;
  read_timeout = seconds c.listen.read_timeout;
  write_timeout = seconds c.listen.write_timeout;
  idle_timeout =
      if is_nonpos c.listen.idle_timeout
      then seconds c.listen.idle_timeout
      else seconds_of c.listen.idle_timeout;
  max_header_bytes =
      if is_nonpos c.listen.max_header_kb
      then pos 1048576
      else wrap64 (c.listen.max_header_kb *ℤ pos 1024);
}

-- Whether the main server speaks TLS, and where plain HTTP is sent on to HTTPS.
unfoldable pub serves_tls : Config → Bool
serves_tls c = c.tls.enabled && (not (is_empty c.tls.cert_file) && not (is_empty c.tls.key_file))

unfoldable pub redirect_addr : Config → Option Bytes
redirect_addr c =
    if c.tls.enabled && c.tls.redirect
    then some (b':' ∷ show_ℤ (if eqb_ℤ c.tls.http_port (pos 0) then pos 80 else c.tls.http_port))
    else none

unfoldable pub redirect_target : Bytes → Bytes → Bytes
redirect_target host uri = codes "https://" ++ (host ++ uri)

-- strings.Replace(s, old, new, 1) for an `old` that is not empty.
unfoldable pub replace_first : Bytes → Bytes → Bytes → Bytes
replace_first old new [] = []
replace_first old new (c ∷ s) =
    let rest = c ∷ replace_first old new s in
    elim (strip old (c ∷ s)) [ some r ↦ new ++ r | none ↦ rest ]

-- The address of the administration pages that `banner` prints.
unfoldable pub base_url : Config → Bytes
unfolding replace_first
base_url c =
    let base = (if c.tls.enabled then codes "https://" else codes "http://") ++ c.listen.addr in
    if has_prefix (codes "http://:") base || has_prefix (codes "https://:") base
    then replace_first (codes "://:") (codes "://127.0.0.1:") base
    else base

unfoldable pub admin_url : Config → Bytes → Bytes → Bytes
unfolding base_url replace_first
admin_url c admin_path admin_addr =
    if is_empty admin_addr
    then base_url c ++ (admin_path ++ codes "/")
    else if has_prefix (codes ":") admin_addr
    then codes "http://127.0.0.1" ++ (admin_addr ++ (admin_path ++ codes "/"))
    else codes "http://"
      ++ (replace_first (codes ":") (codes "127.0.0.1:") admin_addr ++ (admin_path ++ codes "/"))
