-- ===== src/Socks/Tests.antt =====
-- Examples for the SOCKS5 dialler.
use revproxy.Prelude.{
  ℤ, ◌≡◌, inl, refl, ◌&&◌, not, if◌then◌else◌, is_empty, has_byte, bytes_eq, true, false, [], ◌∷◌,
  ◌++◌, Option, none, some, pos, Bytes, codes, arith,
}
use revproxy.Backend.{SocksConfig}
use revproxy.Host.{split_host_port, cut_last}
use revproxy.Socks.{Conn, ok, err, extra_data, Ip, request, dial_socks5, address, port_of}
use revproxy.Socks.Handshake.{told, welcome, accepted, dial_socks5-accepted}
use revproxy.Socks.Tunnel.{tunnel_request, dial_connect}
use revproxy.Socks.Tunnel.Accepted.{dial_connect-accepted}
use revproxy.Socks.Dial.{dial_context}
use revproxy.Socks.Dial.Closed.{IsTidy, dial_context-IsTidy}

abbrev a_proxy : SocksConfig
a_proxy = record {
  proxy_type = codes "socks5";
  addr = codes "p:1080";
  username = codes "u";
  password = codes "pw";
  timeout = pos 0;
}

abbrev no_ip : Bytes → Option Ip
no_ip s = none

abbrev bound : Bytes
bound = 0 ∷ 0 ∷ 0 ∷ 0 ∷ 0 ∷ 0 ∷ []

abbrev conn : Conn
conn = record {
  input = welcome true 1 ++ (accepted 0 1 bound ++ codes "hi");
  output = [];
  writes = 3;
  closed = false;
  timed = false;
}

dial_socks5-accepted_example : dial_socks5 no_ip a_proxy (codes "b.com:80") true conn ≡ (
  record {
    input = codes "hi";
    output = ([] ++ told true a_proxy) ++ request (3 ∷ 5 ∷ codes "b.com") 80;
    writes = 0;
    closed = false;
    timed = false;
  },
  ok tt,
)
unfolding split_host_port port_of address cut_last
dial_socks5-accepted_example =
    dial_socks5-accepted no_ip true a_proxy (codes "b.com:80") (codes "b.com") (codes "80")
      (3 ∷ 5 ∷ codes "b.com") 80 1 0 1 0 bound (codes "hi") conn (omega arith, omega arith) refl
      refl refl (inl (refl, refl)) refl refl

closed_of : {c : Conn} → some (record conn { closed = false }) ≡ some c → c.closed ≡ false
closed_of e = cc

abbrev to_conn : ℤ → Bytes → Option Conn
to_conn limit addr = some (record conn { closed = false })

dial_context-IsTidy_example :
    IsTidy (
      dial_context to_conn no_ip
        (λ s. s)
        true
        false
        (some a_proxy)
        (codes "tcp")
        (codes "b.com:80"))
dial_context-IsTidy_example =
    dial_context-IsTidy to_conn no_ip (λ s. s) true false (λ limit addr c e. closed_of e)
      (some a_proxy) (codes "tcp") (codes "b.com:80")

abbrev answering : Conn
answering = record {
  input = codes "HTTP/1.1 200 OK" ++ 13 ∷ 10 ∷ (codes "Via: p" ++ 13 ∷ 10 ∷ 13 ∷ 10 ∷ codes "hi");
  output = [];
  writes = 1;
  closed = false;
  timed = false;
}

dial_connect-accepted_example :
    let cfg = record a_proxy { proxy_type = codes "http" } in
    let answered = record answering {
      writes = 0;
      output = tunnel_request (λ s. s) cfg (codes "b.com:443");
      input = codes "hi";
    } in
    dial_connect (λ s. s) false cfg (codes "b.com:443") answering ≡ (
      if false && not (is_empty (codes "hi"))
      then (record answered { timed = true; closed = true }, err extra_data)
      else (record answered { timed = false }, ok tt))
unfolding has_byte bytes_eq
dial_connect-accepted_example =
    dial_connect-accepted (λ s. s) false (record a_proxy { proxy_type = codes "http" })
      (codes "b.com:443") answering 0 (codes "HTTP/1.1 200 OK" ++ 13 ∷ [])
      ((codes "Via: p" ++ 13 ∷ []) ∷ []) (codes "hi") refl refl
      (record { one_line = refl; long = omega arith; two = refl })
      (record { one_line = refl; no_end = refl }, tt)
