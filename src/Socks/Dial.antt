-- ===== src/Socks/Dial.antt =====
-- The choice of a dialler, `DialContext` of internal/socks/socks5.go. `reach` is `net.Dialer` with
-- its time limit in nanoseconds: a connection to an address, `none` for an error. The handshake has
-- the same limit, so the input of the connection is what arrives within it; the deadline of the
-- context is left out.
pub mod Closed
use revproxy.Prelude.{
  Bool, true, false, ◌&&◌, ◌||◌, not, List, [], ◌∷◌, ◌++◌, ◌*◌, ◌^◌, ◌*ℤ◌, wrap64, Option, none,
  some, if◌then◌else◌, ℤ, pos, is_nonpos, Bytes, codes, bytes_eq, is_empty,
}
use revproxy.Backend.{SocksConfig}
use revproxy.Host.{split_host_port}
use revproxy.Routing.{socks_empty}
use revproxy.Socks.{
  Conn, Failure, bad_network, bad_type, unreachable, Result, ok, err, Ip, dial_socks5,
}
use revproxy.Socks.Tunnel.{dial_connect}

-- `Empty` of a proxy that may be nil.
unfoldable pub is_direct : Option SocksConfig → Bool
unfolding socks_empty
is_direct none = true
is_direct (some cfg) = socks_empty cfg

-- time.Duration(n) * time.Second
unfoldable pub seconds_of : ℤ → ℤ
unfolding wrap64 ◌*ℤ◌
seconds_of n = wrap64 (n *ℤ pos (10 ^ 9))

-- `timeout` of a proxy that may be nil: how long a connection to it, or without one, may take.
unfoldable pub dial_limit : Option SocksConfig → ℤ
unfolding seconds_of
dial_limit none = pos (10 * 10 ^ 9)
dial_limit (some c) = if is_nonpos c.timeout then pos (10 * 10 ^ 9) else seconds_of c.timeout

-- The connection that was opened, and how dialling ended.
abbrev pub Dialled : Type 0
Dialled = Option Conn × Result (Unit {0})

unfoldable pub is_tcp : Bytes → Bool
is_tcp network =
    bytes_eq network (codes "tcp")
    || (bytes_eq network (codes "tcp4") || bytes_eq network (codes "tcp6"))

module _ (reach : ℤ → Bytes → Option Conn) (parse_ip : Bytes → Option Ip) (base64 : Bytes → Bytes)
    (deadline_set early : Bool) where
  -- A connection to an address within a time limit, and what is done on it.
  unfoldable pub on_connection : ℤ → Bytes → (Conn → Conn × Result (Unit {0})) → Dialled
  on_connection limit addr shake = elim (reach limit addr) [
    | none ↦ (none, err unreachable)
    | some c ↦ (let (d, r) = shake c in (some d, r))
  ]

  unfoldable pub dial_by_type : SocksConfig → Bytes → Dialled
  unfolding on_connection dial_socks5 dial_connect dial_limit
  dial_by_type cfg addr =
      if bytes_eq cfg.proxy_type (codes "socks5")
      then on_connection (dial_limit (some cfg)) cfg.addr
          (dial_socks5 parse_ip cfg addr deadline_set)
      else if bytes_eq cfg.proxy_type (codes "http")
      then on_connection (dial_limit (some cfg)) cfg.addr (dial_connect base64 early cfg addr)
      else (none, err bad_type)

  unfoldable pub dial_proxy : Option SocksConfig → Bytes → Dialled
  unfolding dial_by_type dial_limit
  dial_proxy none addr = on_connection (dial_limit none) addr (λ c. (c, ok tt))
  dial_proxy (some cfg) addr =
      if is_direct (some cfg)
      then on_connection (dial_limit (some cfg)) addr (λ c. (c, ok tt))
      else dial_by_type cfg addr

  unfoldable pub dial_context : Option SocksConfig → Bytes → Bytes → Dialled
  unfolding is_tcp dial_proxy
  dial_context cfg network addr =
      if not (is_tcp network) then (none, err bad_network) else dial_proxy cfg addr
