-- ===== src/Socks/Handshake.antt =====
-- The SOCKS5 handshake of internal/socks/socks5.go as a whole.
use revproxy.Prelude.{
  ℕ, suc, ◌+◌, ◌≤◌, ◌≡◌, le→leb, ◌⊎◌, inl, inr, refl, ◌∙◌, Bool, true, false, [], ◌∷◌, ◌++◌, Option,
  some, arith, ◌==◌, length, Bytes,
}
use mathlib.Core.List.{append_assoc}
use revproxy.Backend.{SocksConfig}
use revproxy.Host.{split_host_port}
use revproxy.Socks.{
  Conn, ok, Ip, read, write, check, byte_at, bad_login, ◌>>=◌, ◌>>◌, greeting, authenticate,
  negotiate, skip, skip_address, read_reply, address, request, port_of, connect, finish,
  dial_socks5, auth_request, socks5_auth,
}
use revproxy.Socks.Wire.{split_at-append_of}

-- The length of what follows the type of an address in the reply of a proxy, with the port.
abbrev pub IsBound : ℕ → Bytes → Type 0
IsBound t [] = ⊥
IsBound t (n ∷ body) =
    ((t ≡ 1) × (length (n ∷ body) ≡ 6))
    ⊎ (((t ≡ 4) × (length (n ∷ body) ≡ 18)) ⊎ ((t ≡ 3) × (length body ≡ n + 2)))

read-append :
    (n : ℕ) (s rest : Bytes) (c : Conn)
    → length s ≡ n
    → c.input ≡ s ++ rest
    → read n c ≡ (record c { input = rest }, ok s)
unfolding read
read-append n s rest c h e = ground (arith, split_at-append_of n s rest h)

write-more :
    (s : Bytes) (n : ℕ) (c : Conn)
    → c.writes ≡ suc n
    → write s c ≡ (record c { writes = n; output = c.output ++ s }, ok tt)
unfolding write
write-more s n c w = ground (arith, w)

skip-append :
    (n : ℕ) (s rest : Bytes) (c : Conn)
    → length s ≡ n
    → c.input ≡ s ++ rest
    → skip n c ≡ (record c { input = rest }, ok tt)
unfolding skip
skip-append n s rest c h e = rw (read-append n s rest c h e)

-- skip_address takes exactly such an address away.
skip_address-append :
    (t : ℕ) (bound rest : Bytes) (c : Conn)
    → IsBound t bound
    → c.input ≡ bound ++ rest
    → skip_address t c ≡ (record c { input = rest }, ok tt)
unfolding skip_address
skip_address-append t [] rest c h e = absurd h
skip_address-append t (n ∷ body) rest c (inl (a, b)) e = rw (a, skip-append 6 (n ∷ body) rest c b e)
skip_address-append t (n ∷ body) rest c (inr (inl (a, b))) e =
    rw (a, skip-append 18 (n ∷ body) rest c b e)
skip_address-append t (n ∷ body) rest c (inr (inr (a, b))) e = rw (
  a,
  read-append 1 (n ∷ []) (body ++ rest) c refl e,
  skip-append (n + 2) body rest (record c { input = body ++ rest }) b refl,
)

-- The reply of a proxy that has made the connection.
abbrev pub accepted : ℕ → ℕ → Bytes → Bytes
accepted reserved t bound = 5 ∷ 0 ∷ reserved ∷ t ∷ bound

read_reply-accepted :
    (reserved t : ℕ) (bound rest : Bytes) (c : Conn)
    → IsBound t bound
    → c.input ≡ accepted reserved t bound ++ rest
    → read_reply c ≡ (record c { input = rest }, ok tt)
unfolding read_reply
read_reply-accepted reserved t bound rest c h e = rw (
  read-append 4 (5 ∷ 0 ∷ reserved ∷ t ∷ []) (bound ++ rest) c refl e,
  skip_address-append t bound rest (record c { input = bound ++ rest }) h refl,
)

-- What a proxy sends that asks for no login, or accepts one.
abbrev pub welcome : Bool → ℕ → Bytes
welcome false x = 5 ∷ 0 ∷ []
welcome true x = 5 ∷ 2 ∷ x ∷ 0 ∷ []

-- What it is told, and in how many writes.
abbrev pub told : Bool → SocksConfig → Bytes
told false cfg = greeting cfg
told true cfg = greeting cfg ++ auth_request cfg

abbrev pub told_in : Bool → ℕ
told_in false = 1
told_in true = 2

abbrev pub IsLogin : Bool → SocksConfig → Type 0
IsLogin false cfg = Unit {0}
IsLogin true cfg = (length cfg.username ≤ 255) × (length cfg.password ≤ 255)

login-accepted :
    (cfg : SocksConfig) (x n : ℕ) (rest : Bytes) (c : Conn)
    → c.writes ≡ suc n
    → c.input ≡ x ∷ 0 ∷ rest
    → (do write (auth_request cfg); resp ← read 2; check (byte_at 1 resp == 0) bad_login) c
      ≡ (record c { input = rest; writes = n; output = c.output ++ auth_request cfg }, ok tt)
login-accepted cfg x n rest c w e = rw (
  write-more (auth_request cfg) n c w,
  read-append 2 (x ∷ 0 ∷ []) rest (record c { writes = n; output = c.output ++ auth_request cfg })
      refl e,
)

socks5_auth-accepted :
    (cfg : SocksConfig) (x n : ℕ) (rest : Bytes) (c : Conn)
    → IsLogin true cfg
    → c.writes ≡ suc n
    → c.input ≡ x ∷ 0 ∷ rest
    → socks5_auth cfg c
      ≡ (record c { input = rest; writes = n; output = c.output ++ auth_request cfg }, ok tt)
unfolding socks5_auth
socks5_auth-accepted cfg x n rest c h w e =
    rw (le→leb _ _ h.0, le→leb _ _ h.1) (login-accepted cfg x n rest c w e)

negotiate-welcome :
    (login : Bool) (cfg : SocksConfig) (x n : ℕ) (rest : Bytes) (c : Conn)
    → IsLogin login cfg
    → c.writes ≡ told_in login + n
    → c.input ≡ welcome login x ++ rest
    → negotiate cfg c
      ≡ (record c { input = rest; writes = n; output = c.output ++ told login cfg }, ok tt)
unfolding negotiate authenticate
negotiate-welcome false cfg x n rest c h w e = rw (
  write-more (greeting cfg) n c (w ∙ omega arith),
  read-append 2 (5 ∷ 0 ∷ []) rest (record c { writes = n; output = c.output ++ greeting cfg }) refl
      e,
)
negotiate-welcome true cfg x n rest c h w e = rw (
  write-more (greeting cfg) (suc n) c (w ∙ omega arith),
  read-append 2 (5 ∷ 2 ∷ []) (x ∷ 0 ∷ rest)
      (record c { writes = suc n; output = c.output ++ greeting cfg }) refl e,
  socks5_auth-accepted cfg x n rest
      (record c { input = x ∷ 0 ∷ rest; writes = suc n; output = c.output ++ greeting cfg }) h refl
      refl,
  append_assoc c.output (greeting cfg) (auth_request cfg),
)

module _ (parse_ip : Bytes → Option Ip) where
  -- A proxy that wants no login, or accepts the one that is configured, and then makes the
  -- connection: for a target with host and port, the handshake succeeds, has written the greeting, the login if it
  -- was wanted and the request and nothing else, and has read exactly what the proxy sent, to the end of its
  -- address and port, so that what follows belongs to the tunnel. The connection stays open
  -- and has no deadline.
  pub dial_socks5-accepted :
      (login : Bool) (cfg : SocksConfig) (addr host text dest : Bytes) (port x reserved t n : ℕ)
      (bound rest : Bytes) (c : Conn)
      → IsLogin login cfg
      → split_host_port addr ≡ some (host, text)
      → port_of text ≡ some port
      → address (parse_ip host) host ≡ some dest
      → IsBound t bound
      → c.writes ≡ told_in login + suc n
      → c.input ≡ welcome login x ++ (accepted reserved t bound ++ rest)
      → dial_socks5 parse_ip cfg addr true c ≡ (
        record c {
          input = rest;
          writes = n;
          output = (c.output ++ told login cfg) ++ request dest port;
          timed = false;
        },
        ok tt,
      )
  unfolding dial_socks5 connect finish
  dial_socks5-accepted login cfg addr host text dest port x reserved t n bound rest c h s p a b w
        e =
      rw
        (
          negotiate-welcome login cfg x (suc n) (accepted reserved t bound ++ rest)
              (record c { timed = true }) h w e,
          s,
          p,
          a,
        )
        (simp (
          read_reply-accepted reserved t bound rest
            (record c {
              timed = true;
              input = accepted reserved t bound ++ rest;
              writes = n;
              output = (c.output ++ told login cfg) ++ request dest port;
            })
            b refl))
