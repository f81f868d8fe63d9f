-- ===== src/Socks/Tunnel/Accepted.antt =====
-- The tunnel of internal/socks/socks5.go with a proxy that accepts.
use revproxy.Prelude.{
  ℕ, zero, suc, ◌+◌, ◌≤◌, ◌≡◌, refl, ap, ◌∙◌, Bool, true, false, ◌&&◌, ◌||◌, not, List, [], ◌∷◌,
  ◌++◌, some, if◌then◌else◌, ◌==◌, arith, leb, le→leb, ==_iff, length, length-append, Bytes,
  bytes_eq, is_empty, has_byte,
}
use revproxy.Backend.{SocksConfig}
use revproxy.Socks.{Conn, ok, err, extra_data, byte_at, check, write, finish}
use revproxy.Socks.Tunnel.{
  crlf, tunnel_request, cut_line, read_line, skip_head, skip_lines, no_more, open_tunnel,
  dial_connect,
}

cut_line-append :
    (l s : Bytes) → has_byte 10 l ≡ false → cut_line (l ++ 10 ∷ s) ≡ some (l ++ 10 ∷ [], s)
unfolding cut_line has_byte
cut_line-append [] s h = refl
cut_line-append (c ∷ l) s h = ground (arith, cut_line-append l s)

read_line-append :
    (c : Conn) (l s : Bytes)
    → has_byte 10 l ≡ false
    → c.input ≡ l ++ 10 ∷ s
    → read_line c ≡ (record c { input = s }, ok (l ++ 10 ∷ []))
unfolding read_line
read_line-append c l s h e =
    let cut : cut_line c.input ≡ some (l ++ 10 ∷ [], s) = ap cut_line e ∙ cut_line-append l s h in
    rw (read_line, cut) refl

-- A header line without its newline.
pub record IsHeader (l : Bytes) : Type 0 where
  pub one_line : has_byte 10 l ≡ false
  pub no_end : (bytes_eq (l ++ 10 ∷ []) crlf || bytes_eq (l ++ 10 ∷ []) (10 ∷ [])) ≡ false

abbrev pub AreHeaders : List Bytes → Type 0
AreHeaders [] = Unit {0}
AreHeaders (l ∷ ls) = IsHeader l × AreHeaders ls

-- The header lines, the line that ends them, and what follows.
abbrev pub head : List Bytes → Bytes → Bytes
head [] rest = 13 ∷ 10 ∷ rest
head (l ∷ ls) rest = l ++ 10 ∷ head ls rest

length-head : (ls : List Bytes) (rest : Bytes) → length ls ≤ length (head ls rest)
length-head [] rest = omega arith
length-head (l ∷ ls) rest = omega (arith, length-head ls rest, length-append l (10 ∷ head ls rest))

skip_head-head :
    (fuel : ℕ) (ls : List Bytes) (rest : Bytes) (c : Conn)
    → length ls + 1 ≤ fuel
    → AreHeaders ls
    → c.input ≡ head ls rest
    → skip_head fuel c ≡ (record c { input = rest }, ok tt)
unfolding skip_head bytes_eq has_byte
skip_head-head zero ls rest c h v e = absurd (omega (arith, h))
skip_head-head (suc fuel) [] rest c h v e =
    rw (skip_head, read_line-append c (13 ∷ []) rest refl e) refl
skip_head-head (suc fuel) (l ∷ ls) rest c h (v, vs) e =
    rw (skip_head, read_line-append c l (head ls rest) v.one_line e, v.no_end)
      (skip_head-head fuel ls rest (record c { input = head ls rest }) (omega arith) vs refl)

skip_lines-head :
    (ls : List Bytes) (rest : Bytes) (c : Conn)
    → AreHeaders ls
    → c.input ≡ head ls rest
    → skip_lines c ≡ (record c { input = rest }, ok tt)
unfolding skip_lines
skip_lines-head ls rest c v e =
    let long : length c.input ≡ length (head ls rest) = ap length e in
    skip_head-head (suc (length c.input)) ls rest c (omega (arith, long, length-head ls rest)) v e

finish-check :
    (extra : Bool) (c : Conn)
    → finish (check (not extra) extra_data c) ≡ (
        if extra
        then (record c { closed = true }, err extra_data)
        else (record c { timed = false }, ok tt))
unfolding finish
finish-check true c = refl
finish-check false c = refl

-- A status line without its newline that opens the tunnel.
pub record IsAccepting (line : Bytes) : Type 0 where
  pub one_line : has_byte 10 line ≡ false
  pub long : 12 ≤ length (line ++ 10 ∷ [])
  pub two : byte_at 9 (line ++ 10 ∷ []) ≡ b'2'

module _ (base64 : Bytes → Bytes) (early : Bool) where
  open_tunnel-accepted :
      (cfg : SocksConfig) (addr : Bytes) (c : Conn) (n : ℕ) (line : Bytes) (ls : List Bytes)
      (rest : Bytes)
      → c.writes ≡ suc n
      → c.input ≡ line ++ 10 ∷ head ls rest
      → IsAccepting line
      → AreHeaders ls
      → open_tunnel base64 early cfg addr c
        ≡ no_more early (record c {
          writes = n;
          output = c.output ++ tunnel_request base64 cfg addr;
          input = rest;
        })
  unfolding open_tunnel write
  open_tunnel-accepted cfg addr c n line ls rest w e v vs =
      let sent = record c { writes = n; output = c.output ++ tunnel_request base64 cfg addr } in
      let long : leb 12 (length (line ++ 10 ∷ [])) ≡ true = le→leb _ _ v.long in
      let two : (byte_at 9 (line ++ 10 ∷ []) == b'2') ≡ true = (==_iff _ _).1 v.two in
      rw
        (
          open_tunnel,
          write,
          w,
          read_line-append sent line (head ls rest) v.one_line e,
          long,
          two,
          skip_lines-head ls rest (record sent { input = head ls rest }) vs refl,
        )
        refl

  -- An HTTP proxy that answers the request with a line of twelve bytes or more whose tenth is `2`,
  -- header lines, an empty line and `rest`: the request is written, the answer is
  -- read up to `rest`, and the connection is ready with no deadline; it is closed with an error if bytes of
  -- `rest` came along with the answer.
  pub dial_connect-accepted :
      (cfg : SocksConfig) (addr : Bytes) (c : Conn) (n : ℕ) (line : Bytes) (ls : List Bytes)
      (rest : Bytes)
      → c.writes ≡ suc n
      → c.input ≡ line ++ 10 ∷ head ls rest
      → IsAccepting line
      → AreHeaders ls
      → let answered = record c {
        writes = n;
        output = c.output ++ tunnel_request base64 cfg addr;
        input = rest;
      } in
        dial_connect base64 early cfg addr c ≡ (
          if early && not (is_empty rest)
          then (record answered { timed = true; closed = true }, err extra_data)
          else (record answered { timed = false }, ok tt))
  unfolding dial_connect no_more finish
  dial_connect-accepted cfg addr c n line ls rest w e v vs =
      let answered = record c {
        writes = n;
        output = c.output ++ tunnel_request base64 cfg addr;
        input = rest;
        timed = true;
      } in
      ap finish (open_tunnel-accepted cfg addr (record c { timed = true }) n line ls rest w e v vs)
      ∙ finish-check (early && not (is_empty rest)) answered
