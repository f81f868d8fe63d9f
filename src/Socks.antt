-- ===== src/Socks.antt =====
-- Dialling through a proxy, internal/socks/socks5.go. A connection is what the proxy will send
-- (`input`, which then ends), what was written to it, how many writes it will still take, and
-- whether it is closed or under a deadline. The parser of IP addresses is a parameter.
pub mod Wire
pub mod Handshake
pub mod Closing
pub mod Tunnel
pub mod Dial
mod Tests
use revproxy.Prelude.{
  digits, sign_of, ℕ, zero, suc, ◌+◌, ◌-◌, ◌*◌, ◌/◌, ◌%◌, ◌^◌, ◌⊎◌, inl, inr, Bool, true, false,
  ◌&&◌, ◌||◌, not, List, [], ◌∷◌, ◌++◌, Option, none, some, if◌then◌else◌, ◌==◌, ltb, leb, length,
  take, Bytes, codes, bytes_eq, is_empty, cut_at,
}
use revproxy.Backend.{SocksConfig}
use revproxy.Host.{split_host_port}

pub record Conn : Type 0 where
  pub input : Bytes
  pub output : Bytes
  pub writes : ℕ
  pub closed : Bool
  pub timed : Bool

-- The errors of the source; `refused` carries the code of the reply.
pub data Failure : Type 0 where
  no_deadline write_failed read_failed rejected no_method too_long bad_login : Failure
  bad_address bad_port extra_data bad_network bad_type unreachable no_tunnel : Failure
  bad_version bad_address_type refused : ℕ → Failure

pub data Result (A : Type 0) : Type 0 where
  ok : A → Result A
  err : Failure → Result A

-- A step of a handshake changes the connection, and goes on or fails.
abbrev pub Session : Type 0 → Type 0
Session A = Conn → Conn × Result A

abbrev pub continue : {A B : Type 0} → Conn × Result A → (A → Session B) → Conn × Result B
continue (c, ok a) f = f a c
continue (c, err e) f = (c, err e)

infixl 5 ◌>>=◌ ◌>>◌
abbrev pub ◌>>=◌ : {A B : Type 0} → Session A → (A → Session B) → Session B
(m >>= f) c = continue (m c) f

abbrev pub ◌>>◌ : {B : Type 0} → Session (Unit {0}) → Session B → Session B
m >> k = m >>= λ _. k

abbrev pub done : {A : Type 0} → A → Session A
done a c = (c, ok a)

abbrev pub fail : {A : Type 0} → Failure → Session A
fail e c = (c, err e)

-- conn.Write
unfoldable pub write : Bytes → Session (Unit {0})
write s c = elim c.writes [
  | zero ↦ (c, err write_failed)
  | suc n ↦ (record c { writes = n; output = c.output ++ s }, ok tt)
]

-- The first `n` bytes and the others, if there are that many.
pub split_at : ℕ → Bytes → Option (Bytes × Bytes)
split_at zero s = some ([], s)
split_at (suc n) [] = none
split_at (suc n) (c ∷ s) = elim (split_at n s) [ none ↦ none | some (l, r) ↦ some (c ∷ l, r) ]

-- io.ReadFull of `n` bytes: a short input is used up.
pub read : ℕ → Session Bytes
unfolding split_at
read n c = elim (split_at n c.input) [
  | none ↦ (record c { input = [] }, err read_failed)
  | some (l, r) ↦ (record c { input = r }, ok l)
]

-- buf[i] of a buffer with at least that many bytes.
abbrev pub byte_at : ℕ → Bytes → ℕ
byte_at i [] = 0
byte_at zero (c ∷ s) = c
byte_at (suc i) (_ ∷ s) = byte_at i s

abbrev pub check : Bool → Failure → Session (Unit {0})
check true e = done tt
check false e = fail e

-- socks5Auth
pub auth_request : SocksConfig → Bytes
auth_request cfg =
    1 ∷ length cfg.username % 256 ∷ cfg.username ++ length cfg.password % 256 ∷ cfg.password

pub socks5_auth : SocksConfig → Session (Unit {0})
unfolding auth_request read write
socks5_auth cfg = do
  check (leb (length cfg.username) 255 && leb (length cfg.password) 255) too_long
  write (auth_request cfg)
  resp ← read 2
  check (byte_at 1 resp == 0) bad_login

pub greeting : SocksConfig → Bytes
greeting cfg = if is_empty cfg.username then 5 ∷ 1 ∷ 0 ∷ [] else 5 ∷ 2 ∷ 0 ∷ 2 ∷ []

-- What the method that the proxy selects asks for.
pub authenticate : SocksConfig → ℕ → Session (Unit {0})
unfolding socks5_auth
authenticate cfg m = if m == 0 then done tt else if m == 2 then socks5_auth cfg else fail no_method

-- The agreement on a method.
pub negotiate : SocksConfig → Session (Unit {0})
unfolding greeting read write authenticate
negotiate cfg = do
  write (greeting cfg)
  sel ← read 2
  check (byte_at 0 sel == 5) (bad_version (byte_at 0 sel))
  authenticate cfg (byte_at 1 sel)

-- A port: Atoi, and the test that it is in range; the text of -0 is 0.
pub port_of : Bytes → Option ℕ
unfolding digits sign_of
port_of s =
    let (minus, t) = sign_of s in
    if is_empty t then none else (elim (digits 0 t) [
      | none ↦ none
      | some n ↦ if leb n 65535 && (not minus || n == 0) then some n else none
    ])

-- What net.ParseIP finds: four bytes or sixteen.
pub data Ip : Type 0 where
  ip4 : Bytes → Ip
  ip6 : Bytes → Ip

-- The type of the address and its bytes; `none` for a name that is too long.
pub address : Option Ip → Bytes → Option Bytes
address (some (ip4 a)) host = some (1 ∷ a)
address (some (ip6 a)) host = some (4 ∷ a)
address none host = if ltb 255 (length host) then none else some (3 ∷ length host % 256 ∷ host)

pub request : Bytes → ℕ → Bytes
request dest port = 5 ∷ 1 ∷ 0 ∷ dest ++ (port / 256) % 256 ∷ port % 256 ∷ []

-- io.CopyN to io.Discard.
pub skip : ℕ → Session (Unit {0})
unfolding read
skip n = do _ ← read n; done tt

-- The address in the reply is dropped, and the port after it.
pub skip_address : ℕ → Session (Unit {0})
unfolding read skip
skip_address t =
    if t == 1
    then skip 6
    else if t == 4
    then skip 18
    else if t == 3
    then (do n ← read 1; skip (byte_at 0 n + 2))
    else fail (bad_address_type t)

pub read_reply : Session (Unit {0})
unfolding read skip_address
read_reply = do
  hdr ← read 4
  check (byte_at 0 hdr == 5) (bad_version (byte_at 0 hdr))
  check (byte_at 1 hdr == 0) (refused (byte_at 1 hdr))
  skip_address (byte_at 3 hdr)

abbrev pub get : {A : Type 0} → Option A → Failure → Session A
get none e = fail e
get (some a) e = done a

-- A connection that failed is closed, and one that is ready has no deadline any more.
unfoldable pub finish : Conn × Result (Unit {0}) → Conn × Result (Unit {0})
finish (c, ok u) = (record c { timed = false }, ok u)
finish (c, err e) = (record c { closed = true }, err e)

module _ (parse_ip : Bytes → Option Ip) where
  -- The CONNECT request for `addr`.
  pub connect : Bytes → Session (Unit {0})
  unfolding port_of address request write read_reply
  connect addr = do
    parts ← get (split_host_port addr) bad_address
    port ← get (port_of parts.1) bad_port
    dest ← get (address (parse_ip parts.0) parts.0) too_long
    write (request dest port)
    read_reply

  -- dialSOCKS5 on a connection to the proxy; `deadline_set` is the answer of SetDeadline.
  unfoldable pub dial_socks5 : SocksConfig → Bytes → Bool → Conn → Conn × Result (Unit {0})
  unfolding negotiate connect finish
  dial_socks5 cfg addr deadline_set c =
      if deadline_set
      then finish ((do negotiate cfg; connect addr) (record c { timed = true }))
      else (record c { closed = true }, err no_deadline)
