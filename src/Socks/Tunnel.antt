-- ===== src/Socks/Tunnel.antt =====
-- The tunnel through an HTTP proxy, `dialHTTPConnect` of internal/socks/socks5.go. Base64 is a
-- parameter; `early` tells whether bytes behind the head of the answer come along with it.
pub mod Accepted
use revproxy.Prelude.{
  ℕ, zero, suc, Bool, true, false, ◌&&◌, ◌||◌, not, List, [], ◌∷◌, ◌++◌, Option, none, some,
  if◌then◌else◌, ◌==◌, leb, length, Bytes, codes, bytes_eq, is_empty,
}
use revproxy.Backend.{SocksConfig}
use revproxy.Socks.{
  Conn, Failure, no_tunnel, extra_data, read_failed, Result, ok, err, Session, ◌>>=◌, ◌>>◌, done,
  fail, check, byte_at, write, finish,
}

abbrev pub crlf : Bytes
crlf = 13 ∷ 10 ∷ []

unfoldable pub tunnel_request : (Bytes → Bytes) → SocksConfig → Bytes → Bytes
tunnel_request base64 cfg addr =
    codes "CONNECT "
    ++ addr
    ++ codes " HTTP/1.1"
    ++ crlf
    ++ codes "Host: "
    ++ addr
    ++ crlf
    ++ (if is_empty cfg.username
        then []
        else codes "Proxy-Authorization: Basic "
          ++ base64 (cfg.username ++ b':' ∷ cfg.password)
          ++ crlf)
    ++ crlf

-- ReadString('\n'): the bytes up to the first newline with it, and the others.
unfoldable pub cut_line : Bytes → Option (Bytes × Bytes)
cut_line [] = none
cut_line (c ∷ s) =
    let rest = cut_line s in
    if c == 10 then some (10 ∷ [], s) else elim rest [ none ↦ none | some (l, r) ↦ some (c ∷ l, r) ]

unfoldable pub read_line : Session Bytes
unfolding cut_line
read_line c = elim (cut_line c.input) [
  | none ↦ (record c { input = [] }, err read_failed)
  | some (l, r) ↦ (record c { input = r }, ok l)
]

-- The loop over the header lines, with `fuel` rounds.
unfoldable pub skip_head : ℕ → Session (Unit {0})
unfolding read_line
skip_head zero = fail read_failed
skip_head (suc fuel) = do
  l ← read_line
  if bytes_eq l crlf || bytes_eq l (10 ∷ []) then done tt else skip_head fuel

-- A round takes a byte at least, so as many rounds as there are bytes are enough.
unfoldable pub skip_lines : Session (Unit {0})
unfolding skip_head
skip_lines c = skip_head (suc (length c.input)) c

-- The test of br.Buffered().
unfoldable pub no_more : Bool → Session (Unit {0})
no_more early c = check (not (early && not (is_empty c.input))) extra_data c

module _ (base64 : Bytes → Bytes) (early : Bool) where
  unfoldable pub open_tunnel : SocksConfig → Bytes → Session (Unit {0})
  unfolding tunnel_request write read_line skip_lines no_more
  open_tunnel cfg addr = do
    write (tunnel_request base64 cfg addr)
    line ← read_line
    check (leb 12 (length line) && byte_at 9 line == b'2') no_tunnel
    skip_lines
    no_more early

  -- dialHTTPConnect on a connection to the proxy.
  unfoldable pub dial_connect : SocksConfig → Bytes → Conn → Conn × Result (Unit {0})
  unfolding open_tunnel finish
  dial_connect cfg addr c = finish (open_tunnel cfg addr (record c { timed = true }))
