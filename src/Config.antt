-- ===== src/Config.antt =====
-- internal/config/config.go: the configuration model.
-- Go's `int` is ℤ, a time is its Unix second or `none` for the zero time, a `float64` rate is a
-- whole number of millionths, and the untyped `Extra` is its JSON text.
pub mod Normalize
pub mod Password
pub mod Store
mod Tests
use revproxy.Prelude.{
  ℕ, Bool, true, false, List, [], ◌∷◌, ◌++◌, Option, none, some, if◌then◌else◌, ℤ, pos, negsuc,
  Bytes, codes, bytes_eq,
}
use revproxy.Config.Password.{Crypto, hash_password}

pub record Listen : Type 0 where
  pub addr : Bytes
  pub admin_addr : Bytes
  pub admin_path : Bytes
  pub read_timeout : ℤ
  pub write_timeout : ℤ
  pub idle_timeout : ℤ
  pub max_header_kb : ℤ

pub record Admin : Type 0 where
  pub username : Bytes
  pub pass_hash : Bytes
  pub secret : Bytes
  pub session_ttl : ℤ
  pub enabled : Bool

pub record Log : Type 0 where
  pub level : Bytes
  pub access : Bool
  pub file : Bytes
  pub buffer : ℤ

pub record Rate : Type 0 where
  pub enabled : Bool
  pub rps : ℤ
  pub burst : ℤ
  pub per_ip : Bool

pub record Global : Type 0 where
  pub default_proxy : Bytes
  pub max_conns_per_host : ℤ
  pub max_idle_conns : ℤ
  pub dial_timeout : ℤ
  pub response_timeout : ℤ
  pub keep_alive : ℤ
  pub hide_version : Bool
  pub trust_proxy : Bool
  pub enable_echo : Bool
  pub rate_limit : Rate

pub record TlsConfig : Type 0 where
  pub enabled : Bool
  pub cert_file : Bytes
  pub key_file : Bytes
  pub redirect : Bool
  pub http_port : ℤ

pub record Proxy : Type 0 where
  pub id : Bytes
  pub name : Bytes
  pub proxy_type : Bytes
  pub addr : Bytes
  pub username : Bytes
  pub password : Bytes
  pub timeout : ℤ
  pub note : Bytes

pub record Kv : Type 0 where
  pub name : Bytes
  pub value : Bytes

pub record HeaderOp : Type 0 where
  pub request : List Kv
  pub response : List Kv
  pub remove : List Bytes

pub record BasicAuth : Type 0 where
  pub enabled : Bool
  pub username : Bytes
  pub password : Bytes
  pub realm : Bytes

pub record AccessControl : Type 0 where
  pub basic_auth : BasicAuth
  pub ip_allow : List Bytes
  pub ip_deny : List Bytes
  pub rate : Rate

pub record HealthCheck : Type 0 where
  pub enabled : Bool
  pub path : Bytes
  pub interval : ℤ
  pub timeout : ℤ
  pub fails : ℤ
  pub passes : ℤ
  pub codes : List ℤ

pub record BackendConfig : Type 0 where
  pub url : Bytes
  pub weight : ℤ
  pub proxy_id : Bytes
  pub backup : Bool

pub record DomainRule : Type 0 where
  pub pattern_host : Bytes
  pub proxy_id : Bytes
  pub scheme : Bytes

pub record Route : Type 0 where
  pub id : Bytes
  pub name : Bytes
  pub enabled : Bool
  pub host : Bytes
  pub path : Bytes
  pub match_kind : Bytes
  pub mode : Bytes
  pub scheme : Bytes
  pub domain_rules : List DomainRule
  pub priority : ℤ
  pub rewrite : Bytes
  pub strip_path : Bool
  pub backends : List BackendConfig
  pub lb : Bytes
  pub proxy_id : Bytes
  pub insecure_tls : Bool
  pub preserve_host : Bool
  pub retry : ℤ
  pub timeout : ℤ
  pub headers : HeaderOp
  pub health : HealthCheck
  pub access : AccessControl
  pub note : Bytes
  pub created_at : Option ℕ
  pub updated_at : Option ℕ

pub record Snippet : Type 0 where
  pub id : Bytes
  pub name : Bytes
  pub content : Bytes

pub record Config : Type 0 where
  pub version : ℤ
  pub updated_at : Option ℕ
  pub listen : Listen
  pub admin : Admin
  pub log : Log
  pub global : Global
  pub proxies : List Proxy
  pub routes : List Route
  pub tls : TlsConfig
  pub snippets : List Snippet
  pub extra : Bytes

unfoldable pub route_by_id : Bytes → List Route → Option Route
route_by_id id [] = none
route_by_id id (r ∷ rs) = if bytes_eq r.id id then some r else route_by_id id rs

unfoldable pub proxy_by_id : Bytes → List Proxy → Option Proxy
proxy_by_id id [] = none
proxy_by_id id (p ∷ ps) = if bytes_eq p.id id then some p else proxy_by_id id ps

abbrev pub no_rate : Rate
no_rate = record { enabled = false; rps = pos 0; burst = pos 0; per_ip = false }

-- The configuration that is written when there is no file yet.
unfoldable pub default_config : Crypto → Option Bytes → Bytes → ℕ → Config
default_config k salt secret now = record {
  version = pos 1;
  updated_at = some now;
  listen = record {
    addr = codes ":8080";
    admin_addr = [];
    admin_path = codes "/__admin";
    read_timeout = pos 0;
    write_timeout = pos 0;
    idle_timeout = pos 120;
    max_header_kb = pos 64;
  };
  admin = record {
    username = codes "admin";
    pass_hash = hash_password k salt (codes "admin123");
    secret = secret;
    session_ttl = pos 12;
    enabled = true;
  };
  log = record { level = codes "info"; access = true; file = []; buffer = pos 500 };
  global = record {
    default_proxy = [];
    max_conns_per_host = pos 0;
    max_idle_conns = pos 200;
    dial_timeout = pos 10;
    response_timeout = pos 0;
    keep_alive = pos 30;
    hide_version = false;
    trust_proxy = false;
    enable_echo = true;
    rate_limit = no_rate;
  };
  proxies = [];
  routes = [];
  tls = record {
    enabled = false;
    cert_file = [];
    key_file = [];
    redirect = false;
    http_port = pos 0;
  };
  snippets = [];
  extra = [];
}
