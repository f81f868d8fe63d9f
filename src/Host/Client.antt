-- ===== src/Host/Client.antt =====
-- The client address of internal/proxy/middleware.go.
use revproxy.Prelude.{◌≡◌, false, List, ◌∷◌, ◌++◌, Bytes, arith}
use revproxy.Host.{Request, client_ip}
use revproxy.Host.Port.{IsPlain, cut_last-append, split_parts_plain}

-- Without a trusted proxy in front, no header has any say in the client's address: from a peer at a
-- plain host and port the address is that host, whatever headers the request has.
pub client_ip_untrusted :
    (r : Request) (host port : Bytes) (headers : List (Bytes × Bytes))
    → IsPlain host
    → IsPlain port
    → r.remote_addr ≡ host ++ b':' ∷ port
    → client_ip (record r { headers = headers }) false ≡ host
unfolding client_ip
client_ip_untrusted r host port headers h k e =
    ground (arith, cut_last-append b':' host port k.0, split_parts_plain host port h k)
