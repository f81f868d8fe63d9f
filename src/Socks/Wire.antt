-- ===== src/Socks/Wire.antt =====
-- What internal/socks/socks5.go writes, read back the way a SOCKS5 proxy reads it (RFC 1928 and RFC
-- 1929).
use revproxy.Prelude.{
  ℕ, zero, suc, ◌+◌, ◌*◌, ◌/◌, ◌%◌, ◌≤◌, ◌≡◌, refl, sym, [], ◌∷◌, ◌++◌, Option, none, some, arith,
  if◌then◌else◌, ◌==◌, length, Bytes,
}
use revproxy.Backend.{SocksConfig}
use revproxy.Socks.{split_at, request, address, auth_request, Ip, ip4, ip6}

pub split_at-append : (s t : Bytes) → split_at (length s) (s ++ t) ≡ some (s, t)
unfolding split_at
split_at-append [] t = refl
split_at-append (c ∷ s) t = rw (split_at-append s t)

pub split_at-append_of : (n : ℕ) (s t : Bytes) → length s ≡ n → split_at n (s ++ t) ≡ some (s, t)
split_at-append_of n s t e = rw (sym e) (split_at-append s t)

split_at-all : (n : ℕ) (s : Bytes) → length s ≡ n → split_at n s ≡ some (s, [])
unfolding split_at
split_at-all zero [] e = refl
split_at-all zero (c ∷ s) e = absurd (omega (arith, e))
split_at-all (suc n) [] e = absurd (omega (arith, e))
split_at-all (suc n) (c ∷ s) e = rw (split_at-all n s (omega arith))

-- The proxy's reader: the type of the address, its bytes and the port.
abbrev pub read_port : ℕ → Bytes → Bytes → Option (ℕ × Bytes × ℕ)
read_port t addr (a ∷ b ∷ []) = some (t, addr, a * 256 + b)
read_port t addr _ = none

abbrev pub read_sized : ℕ → ℕ → Bytes → Option (ℕ × Bytes × ℕ)
read_sized t n s = elim (split_at n s) [ none ↦ none | some (addr, rest) ↦ read_port t addr rest ]

abbrev pub read_name : Bytes → Option (ℕ × Bytes × ℕ)
read_name [] = none
read_name (n ∷ s) = read_sized 3 n s

abbrev pub read_address : ℕ → Bytes → Option (ℕ × Bytes × ℕ)
read_address t s =
    if t == 1
    then read_sized 1 4 s
    else if t == 4
    then read_sized 4 16 s
    else if t == 3
    then read_name s
    else none

abbrev pub read_request : Bytes → Option (ℕ × Bytes × ℕ)
read_request (v ∷ command ∷ reserved ∷ t ∷ s) =
    if v == 5 then (if command == 1 then read_address t s else none) else none
read_request _ = none

-- What the request has to say for a host that is an IP address or a name.
abbrev pub said : Option Ip → Bytes → ℕ → ℕ × Bytes × ℕ
said (some (ip4 a)) host port = (1, a, port)
said (some (ip6 a)) host port = (4, a, port)
said none host port = (3, host, port)

abbrev pub IsIp : Option Ip → Type 0
IsIp none = Unit {0}
IsIp (some (ip4 a)) = length a ≡ 4
IsIp (some (ip6 a)) = length a ≡ 16

-- The proxy reads the very address and the port that the request is made for, for an address of four bytes,
-- one of sixteen, or a name of at most 255 bytes, and a port of 16 bits.
pub read_request-request :
    (ip : Option Ip) (host dest : Bytes) (port : ℕ)
    → IsIp ip
    → port ≤ 65535
    → address ip host ≡ some dest
    → read_request (request dest port) ≡ some (said ip host port)
unfolding request address
read_request-request (some (ip4 a)) host dest port h p e =
    ground (arith, split_at-append_of 4 a ((port / 256) % 256 ∷ port % 256 ∷ []) h)
read_request-request (some (ip6 a)) host dest port h p e =
    ground (arith, split_at-append_of 16 a ((port / 256) % 256 ∷ port % 256 ∷ []) h)
read_request-request none host dest port h p e =
    ground (arith, split_at-append host ((port / 256) % 256 ∷ port % 256 ∷ []))

-- The reader of a login.
abbrev pub read_password : Bytes → Bytes → Option (Bytes × Bytes)
read_password user [] = none
read_password user (n ∷ s) = elim (split_at n s) [ some (pass, []) ↦ some (user, pass) | _ ↦ none ]

abbrev pub read_login : Bytes → Option (Bytes × Bytes)
read_login (v ∷ n ∷ s) = elim (split_at n s) [
  | none ↦ none
  | some (user, rest) ↦ read_password user rest
]
read_login _ = none

-- The proxy reads the very name and password that are configured, of which neither has more than
-- 255 bytes.
pub read_login-auth_request :
    (cfg : SocksConfig)
    → length cfg.username ≤ 255
    → length cfg.password ≤ 255
    → read_login (auth_request cfg) ≡ some (cfg.username, cfg.password)
unfolding auth_request
read_login-auth_request cfg h k = ground (
  arith,
  split_at-append_of (length cfg.username % 256) cfg.username
      (length cfg.password % 256 ∷ cfg.password) (omega arith),
  split_at-all (length cfg.password % 256) cfg.password (omega arith),
)
