-- ===== src/Samples.antt =====
-- Data that the tests share.
use revproxy.Prelude.{
  ℕ, ◌≡◌, ◌≢◌, ◌++◌, ◌*◌, refl, arith, has_byte, some, has_prefix, is_empty, if◌then◌else◌, Bool,
  true, false, List, [], ◌∷◌, none, pos, Bytes, codes,
}
use revproxy.Access.{Net}
use revproxy.Config.{Config, Route, HealthCheck, no_rate, default_config}
use revproxy.Backend.{Backend, Url}
use revproxy.Pool.{Pool}
use revproxy.Host.{Request}
use revproxy.Routing.{Matcher}
use revproxy.Config.Normalize.{Entropy}
use revproxy.Config.Password.{Crypto}
use revproxy.Config.Store.{Codec, Disk, Store, Env}
use revproxy.Stats.{AccessLog, new}
use revproxy.Auth.{second, token}
use revproxy.Admin.{Tools, AdminRequest, Call, World}

unfoldable pub all_zeros : Bytes → Bytes
all_zeros [] = []
all_zeros (c ∷ s) = b'0' ∷ all_zeros s

pub all_zeros_lem : (b : ℕ) (s : Bytes) → b ≢ b'0' → has_byte b (all_zeros s) ≡ false
unfolding all_zeros has_byte
all_zeros_lem b [] h = refl
all_zeros_lem b (c ∷ s) h = ground (arith, all_zeros_lem b s h)

abbrev pub crypto : Crypto
crypto = record {
  hmac = λ key text. key ++ text;
  hex = all_zeros;
  no_colon = λ s. all_zeros_lem b':' s (λ e. omega arith);
  no_dot = λ s. all_zeros_lem b'.' s (λ e. omega arith);
}

abbrev pub a_health : HealthCheck
a_health = record {
  enabled = true;
  path = codes "/";
  interval = pos 10;
  timeout = pos 3;
  fails = pos 2;
  passes = pos 2;
  codes = [];
}

abbrev pub a_route : Route
a_route = record {
  id = codes "rt_1";
  name = codes "api";
  enabled = true;
  host = [];
  path = codes "/api";
  match_kind = codes "prefix";
  mode = [];
  scheme = [];
  domain_rules = [];
  priority = pos 0;
  rewrite = [];
  strip_path = false;
  backends = [];
  lb = codes "round_robin";
  proxy_id = [];
  insecure_tls = false;
  preserve_host = false;
  retry = pos 1;
  timeout = pos 0;
  headers = record { request = []; response = []; remove = [] };
  health = a_health;
  access = record {
    basic_auth = record { enabled = false; username = []; password = []; realm = [] };
    ip_allow = [];
    ip_deny = [];
    rate = no_rate;
  };
  note = [];
  created_at = none;
  updated_at = none;
}

abbrev pub a_url : Bytes → Bytes → Url
a_url host path = record { scheme = codes "http"; host = host; path = path }

abbrev pub node : ℕ → ℕ → Backend
node key weight = record {
  key = key;
  raw = codes "http://a";
  url = a_url (codes "a") [];
  weight = pos weight;
  proxy = none;
  proxy_name = [];
  backup = false;
  alive = true;
  fails = pos 0;
  ok_streak = pos 0;
  conns = pos 0;
  cur_w = pos 0;
  last_err = [];
  last_err_t = none;
}

abbrev pub two_nodes : List Backend
two_nodes = node 1 3 ∷ node 2 1 ∷ []

abbrev pub a_pool : Pool
a_pool = record { strategy = codes "round_robin"; backends = two_nodes; rr = 0 }

abbrev pub a_request : Request
a_request = record {
  method = codes "GET";
  host = codes "example.com";
  path = codes "/api/users";
  raw_query = [];
  remote_addr = codes "10.0.0.1:80";
  headers = [];
  basic_auth = none;
  has_body = false;
}

abbrev pub a_matcher : ℕ → Bytes → Matcher
a_matcher key path = record { key = key; cfg = record a_route { path = path }; path_re = none }

abbrev pub no_regex : Bytes → Bytes → Bool
no_regex re path = false

abbrev pub a_log : ℕ → Bytes → AccessLog
a_log status error = record {
  time = 7;
  route_id = codes "rt_1";
  route = codes "api";
  method = codes "GET";
  host = codes "example.com";
  path = codes "/api";
  status = status;
  duration = 12;
  bytes_out = 345;
  client_ip = codes "10.0.0.1";
  upstream = codes "http://a";
  via_proxy = [];
  error = error;
  retry = 0;
}

abbrev pub a_config : Config
a_config = record (default_config crypto none (codes "secret") 7) {
  admin = record {
    username = codes "admin";
    pass_hash = codes "salt:digest";
    secret = codes "secret";
    session_ttl = pos 12;
    enabled = true;
  };
}

-- Addresses are texts, and a block is the text of its addresses up to the slash.
abbrev pub text_net : Net
text_net = record {
  Ip = Bytes;
  Block = Bytes;
  parse_ip = λ s. if is_empty s then none else some s;
  show_ip = λ s. s;
  parse_cidr = λ s. if has_prefix (codes "10.") s then some (codes "10.") else none;
  in_block = λ b ip. has_prefix b ip;
}

-- A sort that moves nothing is stable on routes that are in order.
abbrev pub in_order : (Route → Route → Bool) → List Route → List Route
in_order less rs = rs

abbrev pub drawn : Entropy
drawn = record {
  secret = codes "5ec2e7";
  crypto = crypto;
  salt = none;
  route_digits = λ i. codes "0f";
  proxy_digits = λ i. codes "1e";
}

abbrev pub codec : Codec
codec = record { marshal = λ c. some c.extra; unmarshal = λ raw. some a_config }

abbrev pub old_disk : Disk
old_disk = record { file = some (codes "old"); tmp = none }

abbrev pub store : Store
store = record { cfg = a_config; disk = old_disk; subs = [] ∷ [] }

abbrev pub env : Env
env = record { now = 9; entropy = drawn; fault = none }

abbrev pub tools : Tools
tools = record {
  net = text_net;
  parse_url = λ s. if is_empty s then none else some (a_url s []);
  compiles = λ s. true;
  codec = codec;
  stable_sort = in_order;
  crypto = crypto;
  read_route = λ s. if is_empty s then none else some a_route;
  read_proxy = λ s. none;
  read_config = λ s. none;
  read_login = λ s. some (record { user = codes "admin"; pass = s });
  read_settings = λ s. none;
  read_password = λ s. none;
  read_proxy_trial = λ s. none;
  read_upstream_trial = λ s. none;
  read_import = λ s. none;
}

abbrev pub world : World tools
world = record {
  store = store;
  engine = record { cfg = a_config; handlers = []; collector = new (pos 10) [] 3 };
  targets = [];
  fresh = 0;
}

abbrev pub call : Call
call = record { now = 9 * second; env = env; again = env; salt = none; digits = codes "0a" }

abbrev pub delete_request : AdminRequest
delete_request = record {
  method = codes "DELETE";
  cookie = token crypto (5 * second) a_config.admin (codes "admin");
  authorization = [];
  admin_header = codes "1";
  content_type = [];
  limit = [];
  body = [];
}
