-- ===== src/Host.antt =====
-- Host names, client addresses and the small tests of internal/proxy/middleware.go.
-- `strings.ToLower` is that of ASCII.
pub mod Port
pub mod Pattern
pub mod Client
mod Tests
use revproxy.Prelude.{
  ℕ, zero, suc, Bool, true, false, ◌&&◌, ◌||◌, not, List, [], ◌∷◌, ◌++◌, Option, none, some, ◌==◌,
  ltb, if◌then◌else◌, length, Bytes, codes, bytes_eq, is_empty, has_prefix, has_suffix, cut_at,
  has_byte, to_lower,
}

-- The text before and after the last such byte.
unfoldable pub cut_last : ℕ → Bytes → Option (Bytes × Bytes)
cut_last b [] = none
cut_last b (c ∷ s) =
    let rest = cut_last b s in
    elim rest [ some (l, r) ↦ some (c ∷ l, r) | none ↦ if c == b then some ([], s) else none ]

-- Host and port of a text in brackets: `]` stands just before the last colon.
bracketed : Bytes → Bytes → Option (Bytes × Bytes)
unfolding has_byte
bracketed host port = elim (cut_at b']' host) [
  | none ↦ none
  | some (inner, rest) ↦
      if bytes_eq rest (b']' ∷ [])
        && not (has_byte b'[' inner || (has_byte b'[' port || has_byte b']' port))
      then some (inner, port)
      else none
]

plain : Bytes → Bytes → Option (Bytes × Bytes)
plain host port =
    if has_byte b':' host
      || (has_byte b'[' host || (has_byte b']' host || (has_byte b'[' port || has_byte b']' port)))
    then none
    else some (host, port)

pub split_parts : Bytes → Bytes → Option (Bytes × Bytes)
unfolding bracketed plain
split_parts [] port = plain [] port
split_parts (c ∷ host) port = if c == b'[' then bracketed host port else plain (c ∷ host) port

-- net.SplitHostPort, `none` for an error.
unfoldable pub split_host_port : Bytes → Option (Bytes × Bytes)
unfolding split_parts
split_host_port s = elim (cut_last b':' s) [
  | none ↦ none
  | some (host, port) ↦ split_parts host port
]

pub without_port : Bytes → Bytes
unfolding split_host_port
without_port host = elim (split_host_port host) [ none ↦ host | some (h, _) ↦ h ]

-- s[1:]
abbrev pub tail : Bytes → Bytes
tail [] = []
tail (_ ∷ s) = s

-- hostMatch, after the port is gone and both texts are in lower case.
pub match_lower : Bytes → Bytes → Bool
match_lower pattern host =
    if has_prefix (codes "*.") pattern
    then has_suffix (tail pattern) host && ltb (length (tail pattern)) (length host)
    else bytes_eq host pattern

unfoldable pub host_match : Bytes → Bytes → Bool
unfolding without_port match_lower
host_match [] host = true
host_match (c ∷ pattern) host = match_lower (to_lower (c ∷ pattern)) (to_lower (without_port host))

-- A request as the handlers see it: header names are canonical, and `basic_auth` is what
-- `r.BasicAuth()` answers.
pub record Request : Type 0 where
  pub method : Bytes
  pub host : Bytes
  pub path : Bytes
  pub raw_query : Bytes
  pub remote_addr : Bytes
  pub headers : List (Bytes × Bytes)
  pub basic_auth : Option (Bytes × Bytes)
  pub has_body : Bool

-- Header.Get
unfoldable pub get_header : Bytes → List (Bytes × Bytes) → Bytes
get_header name [] = []
get_header name ((k, v) ∷ hs) = if bytes_eq k name then v else get_header name hs

is_space : ℕ → Bool
is_space c = c == 32 || (c == 9 || (c == 10 || (c == 11 || (c == 12 || c == 13))))

trim_front : Bytes → Bytes
unfolding is_space
trim_front [] = []
trim_front (c ∷ s) = let rest = trim_front s in if is_space c then rest else c ∷ s

trim_back : Bytes → Bytes
unfolding is_space
trim_back [] = []
trim_back (c ∷ s) = let rest = trim_back s in if is_space c && is_empty rest then [] else c ∷ rest

-- strings.TrimSpace on ASCII
unfoldable pub trim_space : Bytes → Bytes
unfolding trim_front trim_back
trim_space s = trim_front (trim_back s)

-- strings.Split(s, ",")[0]
first_part : Bytes → Bytes
first_part s = elim (cut_at b',' s) [ none ↦ s | some (l, _) ↦ l ]

peer : Bytes → Bytes
peer addr = elim (split_host_port addr) [ none ↦ addr | some (h, _) ↦ h ]

unfoldable pub client_ip : Request → Bool → Bytes
unfolding trim_space first_part peer split_host_port get_header
client_ip r false = peer r.remote_addr
client_ip r true =
    let first = trim_space (first_part (get_header (codes "X-Forwarded-For") r.headers)) in
    let real = get_header (codes "X-Real-Ip") r.headers in
    if not (is_empty first)
    then first
    else if not (is_empty real)
    then trim_space real
    else peer r.remote_addr

-- BasicAuthOK
unfoldable pub basic_auth_ok : Request → Bytes → Bytes → Bool
basic_auth_ok r user pass = elim r.basic_auth [
  | none ↦ false
  | some (u, p) ↦ bytes_eq u user && bytes_eq p pass
]

-- strings.Contains, with the part first.
unfoldable pub contains : Bytes → Bytes → Bool
contains part [] = is_empty part
contains part (c ∷ s) = has_prefix part (c ∷ s) || contains part s

connection_upgrades : List (Bytes × Bytes) → Bool
unfolding contains to_lower
connection_upgrades [] = false
connection_upgrades ((k, v) ∷ hs) =
    (bytes_eq k (codes "Connection") && contains (codes "upgrade") (to_lower v))
    || connection_upgrades hs

unfoldable pub is_upgrade : Request → Bool
unfolding connection_upgrades get_header to_lower
is_upgrade r =
    bytes_eq (to_lower (get_header (codes "Upgrade") r.headers)) (codes "websocket")
    || connection_upgrades r.headers
