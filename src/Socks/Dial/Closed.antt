-- ===== src/Socks/Dial/Closed.antt =====
-- When the diallers of internal/socks/socks5.go close the connection that they have opened.
use revproxy.Prelude.{
  ℕ, zero, suc, ◌≡◌, inl, inr, refl, ◌∙◌, Bool, true, false, ◌&&◌, ◌||◌, not, [], ◌∷◌, Option, none,
  some, if◌then◌else◌, ◌==◌, arith, leb, length, Bytes, codes, bytes_eq, ℤ, Option-cases,
}
use revproxy.Backend.{SocksConfig}
use revproxy.Socks.{
  Conn, Result, ok, err, Session, ◌>>=◌, check, continue, no_tunnel, unreachable, bad_type,
  bad_network, Failure, write, finish, Ip, dial_socks5, byte_at,
}
use revproxy.Socks.Closing.{is_err, Keeps, check-Keeps, write-Keeps, dial_socks5-closed}
use revproxy.Socks.Tunnel.{
  read_line, skip_head, skip_lines, no_more, open_tunnel, dial_connect, tunnel_request, crlf,
}
use revproxy.Socks.Dial.{
  dial_limit, Dialled, on_connection, dial_by_type, dial_proxy, dial_context, is_direct, is_tcp,
}

read_line-Keeps : Keeps read_line
unfolding read_line
read_line-Keeps c = ground arith

continue-Keeps :
    {A B : Type 0} (r : Conn × Result A) (f : A → Session B) (b : Bool)
    → r.0.closed ≡ b
    → ((a : A) → Keeps (f a))
    → (continue r f).0.closed ≡ b
continue-Keeps (c, ok a) f b h k = k a c ∙ h
continue-Keeps (c, err e) f b h k = h

bind-Keeps :
    {A B : Type 0} (m : Session A) (f : A → Session B)
    → Keeps m
    → ((a : A) → Keeps (f a))
    → Keeps (m >>= f)
bind-Keeps m f h k c = continue-Keeps (m c) f c.closed (h c) k

if-Keeps :
    {A : Type 0} (b : Bool) (m n : Session A) → Keeps m → Keeps n → Keeps (if b then m else n)
if-Keeps true m n h k = h
if-Keeps false m n h k = k

skip_head-Keeps : (fuel : ℕ) → Keeps (skip_head fuel)
unfolding skip_head
skip_head-Keeps zero c = refl
skip_head-Keeps (suc fuel) c =
    bind-Keeps read_line _ read_line-Keeps
      (λ l.
        if-Keeps (bytes_eq l crlf || bytes_eq l (10 ∷ [])) _ _ (λ c. refl) (skip_head-Keeps fuel))
      c

skip_lines-Keeps : Keeps skip_lines
unfolding skip_lines
skip_lines-Keeps c = skip_head-Keeps (suc (length c.input)) c

no_more-Keeps : (early : Bool) → Keeps (no_more early)
unfolding no_more
no_more-Keeps early c = check-Keeps _ _ c

open_tunnel-Keeps :
    (base64 : Bytes → Bytes) (early : Bool) (cfg : SocksConfig) (addr : Bytes)
    → Keeps (open_tunnel base64 early cfg addr)
unfolding open_tunnel
open_tunnel-Keeps base64 early cfg addr =
    bind-Keeps (write (tunnel_request base64 cfg addr)) _ (write-Keeps _) (λ _.
      bind-Keeps read_line _ read_line-Keeps (λ line.
        bind-Keeps (check (leb 12 (length line) && byte_at 9 line == b'2') no_tunnel) _
          (check-Keeps _ _)
          (λ _. bind-Keeps skip_lines _ skip_lines-Keeps (λ _. no_more-Keeps early))))

finish-closed :
    (r : Conn × Result (Unit {0})) → r.0.closed ≡ false → (finish r).0.closed ≡ is_err (finish r).1
unfolding finish
finish-closed (c, ok a) e = e
finish-closed (c, err f) e = refl

dial_connect-closed :
    (base64 : Bytes → Bytes) (early : Bool) (cfg : SocksConfig) (addr : Bytes) (c : Conn)
    → c.closed ≡ false
    → (dial_connect base64 early cfg addr c).0.closed
      ≡ is_err (dial_connect base64 early cfg addr c).1
unfolding dial_connect
dial_connect-closed base64 early cfg addr c e =
    finish-closed _ (open_tunnel-Keeps base64 early cfg addr (record c { timed = true }) ∙ e)

-- No connection was opened, and dialling failed; or one was, and it is closed if and only if dialling failed.
pub data IsTidy : Dialled → Type 0 where
  unopened : (e : Failure) → IsTidy (none, err e)
  opened : (d : Conn) (r : Result (Unit {0})) → d.closed ≡ is_err r → IsTidy (some d, r)

module _ (reach : ℤ → Bytes → Option Conn) (parse_ip : Bytes → Option Ip) (base64 : Bytes → Bytes)
    (deadline_set early : Bool)
    (fresh : (limit : ℤ) (addr : Bytes) (c : Conn)
      → reach limit addr ≡ some c
      → c.closed ≡ false) where
  on_connection-IsTidy :
      (limit : ℤ) (addr : Bytes) (shake : Conn → Conn × Result (Unit {0}))
      → ((c : Conn) → c.closed ≡ false → (shake c).0.closed ≡ is_err (shake c).1)
      → IsTidy (on_connection reach parse_ip base64 deadline_set early limit addr shake)
  unfolding on_connection
  on_connection-IsTidy limit addr shake tidy = elim (Option-cases (reach limit addr)) [
    | inl no_way ↦ rw (on_connection, no_way) (unopened unreachable)
    | inr (c, f) ↦
        rw (on_connection, f) (opened (shake c).0 (shake c).1 (tidy c (fresh limit addr c f)))
  ]

  if-IsTidy : (b : Bool) (x y : Dialled) → IsTidy x → IsTidy y → IsTidy (if b then x else y)
  if-IsTidy true x y h k = h
  if-IsTidy false x y h k = k

  dial_by_type-IsTidy :
      (cfg : SocksConfig) (addr : Bytes)
      → IsTidy (dial_by_type reach parse_ip base64 deadline_set early cfg addr)
  unfolding dial_by_type
  dial_by_type-IsTidy cfg addr =
      if-IsTidy (bytes_eq cfg.proxy_type (codes "socks5")) _ _
        (on_connection-IsTidy (dial_limit (some cfg)) cfg.addr
          (dial_socks5 parse_ip cfg addr deadline_set)
          (dial_socks5-closed parse_ip cfg addr deadline_set))
        (if-IsTidy (bytes_eq cfg.proxy_type (codes "http")) _ _
          (on_connection-IsTidy (dial_limit (some cfg)) cfg.addr
            (dial_connect base64 early cfg addr) (dial_connect-closed base64 early cfg addr))
          (unopened bad_type))

  dial_proxy-IsTidy :
      (cfg : Option SocksConfig) (addr : Bytes)
      → IsTidy (dial_proxy reach parse_ip base64 deadline_set early cfg addr)
  unfolding dial_proxy
  dial_proxy-IsTidy none addr =
      on_connection-IsTidy (dial_limit none) addr (λ c. (c, ok tt)) (λ c e. e)
  dial_proxy-IsTidy (some cfg) addr =
      if-IsTidy (is_direct (some cfg)) _ _
        (on_connection-IsTidy (dial_limit (some cfg)) addr (λ c. (c, ok tt)) (λ c e. e))
        (dial_by_type-IsTidy cfg addr)

  -- Where the system hands out open connections, `DialContext` through no proxy, through SOCKS5 or
  -- through an HTTP proxy opens none and fails, or opens one that is closed afterwards exactly if it
  -- fails, whatever the proxy sends.
  pub dial_context-IsTidy :
      (cfg : Option SocksConfig) (network addr : Bytes)
      → IsTidy (dial_context reach parse_ip base64 deadline_set early cfg network addr)
  unfolding dial_context
  dial_context-IsTidy cfg network addr =
      if-IsTidy (not (is_tcp network)) _ _ (unopened bad_network) (dial_proxy-IsTidy cfg addr)
