-- ===== src/Socks/Closing.antt =====
-- When the SOCKS5 dialler of internal/socks/socks5.go closes its connection.
use revproxy.Prelude.{
  ℕ, ◌≡◌, inl, inr, refl, Bool, true, false, Option, none, some, arith, Bytes, Option-cases,
}
use revproxy.Backend.{SocksConfig}
use revproxy.Host.{split_host_port}
use revproxy.Socks.{
  Conn, Failure, Result, ok, err, Session, ◌>>◌, check, get, write, read, skip, skip_address,
  authenticate, socks5_auth, negotiate, read_reply, connect, finish, dial_socks5, Ip, address,
  port_of, request,
}

-- No step closes the connection or opens it.
abbrev pub Keeps : {A : Type 0} → Session A → Type 0
Keeps m = (c : Conn) → (m c).0.closed ≡ c.closed

pub check-Keeps : (b : Bool) (e : Failure) → Keeps (check b e)
check-Keeps true e c = refl
check-Keeps false e c = refl

get-Keeps : {A : Type 0} (o : Option A) (e : Failure) → Keeps (get o e)
get-Keeps none e c = refl
get-Keeps (some a) e c = refl

pub write-Keeps : (s : Bytes) → Keeps (write s)
unfolding write
write-Keeps s c = ground arith

read-Keeps : (n : ℕ) → Keeps (read n)
unfolding read
read-Keeps n c = ground arith

skip-Keeps : (n : ℕ) → Keeps (skip n)
unfolding skip
skip-Keeps n c = ground (arith, read-Keeps n c)

socks5_auth-Keeps : (cfg : SocksConfig) → Keeps (socks5_auth cfg)
unfolding socks5_auth read write
socks5_auth-Keeps cfg c = ground arith

authenticate-Keeps : (cfg : SocksConfig) (m : ℕ) → Keeps (authenticate cfg m)
unfolding authenticate
authenticate-Keeps cfg m c = ground (arith, socks5_auth-Keeps cfg c)

negotiate-Keeps : (cfg : SocksConfig) → Keeps (negotiate cfg)
unfolding negotiate read write
negotiate-Keeps cfg c = grind (arith, authenticate-Keeps cfg)

skip_address-Keeps : (t : ℕ) → Keeps (skip_address t)
unfolding skip_address read
skip_address-Keeps t c = grind (arith, skip-Keeps)

read_reply-Keeps : Keeps read_reply
unfolding read_reply read
read_reply-Keeps c = grind (arith, skip_address-Keeps)

abbrev pub is_err : {A : Type 0} → Result A → Bool
is_err (ok a) = false
is_err (err e) = true

request-Keeps : (dest : Bytes) (port : ℕ) → Keeps (do write (request dest port); read_reply)
unfolding write
request-Keeps dest port c = grind (arith, read_reply-Keeps)

module _ (parse_ip : Bytes → Option Ip) where
  connect-Keeps : (addr : Bytes) → Keeps (connect parse_ip addr)
  unfolding connect
  connect-Keeps addr c = elim (Option-cases (split_host_port addr)) [
    | inl e ↦ rw (e, get)
    | inr ((host, text), e) ↦ elim (Option-cases (port_of text)) [
      | inl f ↦ rw e (rw (f, get))
      | inr (port, f) ↦ elim (Option-cases (address (parse_ip host) host)) [
        | inl g ↦ rw e (rw f (rw (g, get)))
        | inr (dest, g) ↦ rw e (rw f (rw g (request-Keeps dest port c)))
      ]
    ]
  ]

  -- Whatever the proxy sends, and wherever the handshake fails: an open connection is closed afterwards exactly
  -- if dialling failed.
  pub dial_socks5-closed :
      (cfg : SocksConfig) (addr : Bytes) (deadline_set : Bool) (c : Conn)
      → c.closed ≡ false
      → let (d, r) = dial_socks5 parse_ip cfg addr deadline_set c in d.closed ≡ is_err r
  unfolding dial_socks5 finish
  dial_socks5-closed cfg addr false c e = refl
  dial_socks5-closed cfg addr true c e = grind (arith, negotiate-Keeps cfg, connect-Keeps addr)
