-- ===== src/Headers.antt =====
-- Headers and what a route does to them, internal/proxy/engine.go: `rewrite`, `rewriteDynamic`,
-- `modifyResponse`. A header is package net/http's, a map from canonical names to values;
-- `SetXForwarded` of package net/http/httputil is a parameter.
pub mod Fields
pub mod Applied
mod Tests
use revproxy.Prelude.{
  ℕ, ◌+◌, ◌-◌, Bool, true, false, ◌&&◌, ◌||◌, not, List, [], ◌∷◌, Option, none, some, if◌then◌else◌,
  ◌==◌, leb, Bytes, codes, bytes_eq, is_empty, has_byte,
}
use revproxy.Config.{Route, Kv, HeaderOp}
use revproxy.Backend.{Url, Backend}
use revproxy.Routing.{apply_out_url, rewrite_dynamic}

abbrev pub Header : Type 0
Header = List (Bytes × List Bytes)

is_upper : ℕ → Bool
is_upper c = leb b'A' c && leb c b'Z'

is_lower : ℕ → Bool
is_lower c = leb b'a' c && leb c b'z'

-- The bytes of a token of RFC 7230.
is_token_byte : ℕ → Bool
unfolding is_upper is_lower has_byte
is_token_byte c =
    is_upper c
    || (is_lower c || ((leb b'0' c && leb c b'9') || has_byte c (codes "!#$%&'*+-.^_`|~")))

is_token : Bytes → Bool
unfolding is_token_byte
is_token [] = true
is_token (c ∷ s) = is_token_byte c && is_token s

-- One byte of a canonical name, large at the front and behind a dash.
recase : Bool → ℕ → ℕ
unfolding is_upper is_lower
recase true c = if is_lower c then c - 32 else c
recase false c = if is_upper c then c + 32 else c

canonical_from : Bool → Bytes → Bytes
unfolding recase
canonical_from large [] = []
canonical_from large (c ∷ s) = recase large c ∷ canonical_from (c == b'-') s

-- CanonicalMIMEHeaderKey: a name with any other byte stays as it is.
unfoldable pub canonical : Bytes → Bytes
unfolding is_token canonical_from
canonical s = if is_token s then canonical_from true s else s

-- The values under a key.
unfoldable pub values_of : Bytes → Header → List Bytes
values_of k [] = []
values_of k ((j, vs) ∷ h) = if bytes_eq j k then vs else values_of k h

unfoldable pub first_of : List Bytes → Bytes
first_of [] = []
first_of (v ∷ vs) = v

unfoldable pub put_value : Bytes → Bytes → Header → Header
put_value k v [] = (k, v ∷ []) ∷ []
put_value k v ((j, vs) ∷ h) = if bytes_eq j k then (k, v ∷ []) ∷ h else (j, vs) ∷ put_value k v h

unfoldable pub drop_key : Bytes → Header → Header
drop_key k [] = []
drop_key k ((j, vs) ∷ h) = let rest = drop_key k h in if bytes_eq j k then rest else (j, vs) ∷ rest

-- Header.Get, Header.Set and Header.Del
unfoldable pub header_get : Bytes → Header → Bytes
unfolding canonical values_of first_of
header_get name h = first_of (values_of (canonical name) h)

unfoldable pub header_set : Bytes → Bytes → Header → Header
unfolding canonical put_value
header_set name v h = put_value (canonical name) v h

unfoldable pub header_del : Bytes → Header → Header
unfolding canonical drop_key
header_del name h = drop_key (canonical name) h

-- The loops over the configured headers; an entry with no name is left out.
unfoldable pub set_all : List Kv → Header → Header
unfolding header_set
set_all [] h = h
set_all (kv ∷ kvs) h = set_all kvs (if is_empty kv.name then h else header_set kv.name kv.value h)

unfoldable pub del_all : List Bytes → Header → Header
unfolding header_del
del_all [] h = h
del_all (name ∷ names) h = del_all names (header_del name h)

unfoldable pub request_headers : HeaderOp → Header → Header
unfolding set_all del_all
request_headers ops h = del_all ops.remove (set_all ops.request h)

-- The request that goes out. With no host the host of the URL is used.
pub record Outgoing : Type 0 where
  pub url : Url
  pub host : Bytes
  pub header : Header

module _ (set_x_forwarded : Header → Header) where
  -- `rewrite` with a fixed node; without a node nothing is done.
  unfoldable pub rewrite_fixed : Route → Bytes → Option Backend → Outgoing → Outgoing
  unfolding request_headers
  rewrite_fixed cfg in_host none out = out
  rewrite_fixed cfg in_host (some b) out = record {
    url = apply_out_url cfg b.url out.url;
    host = if cfg.preserve_host then in_host else [];
    header = request_headers cfg.headers (set_x_forwarded out.header);
  }

  -- rewriteDynamic; `path` is that of the request that came in.
  unfoldable pub rewrite_by_domain : Route → Bytes → Outgoing → Outgoing
  unfolding request_headers
  rewrite_by_domain cfg path out =
      let url = rewrite_dynamic cfg path in
      record {
        url = url;
        host = url.host;
        header = request_headers cfg.headers (set_x_forwarded out.header);
      }

  -- rewrite
  unfoldable pub rewrite : Route → Bool → Bytes → Bytes → Option Backend → Outgoing → Outgoing
  unfolding rewrite_fixed rewrite_by_domain
  rewrite cfg dyn_domain in_host in_path b out =
      if dyn_domain then rewrite_by_domain cfg in_path out else rewrite_fixed cfg in_host b out

abbrev pub route_header : Bytes
route_header = codes "X-Revproxy-Route"

-- modifyResponse
unfoldable pub modify_response : Route → Header → Header
unfolding set_all header_get header_set
modify_response cfg h =
    let h = set_all cfg.headers.response h in
    if is_empty (header_get route_header h) then header_set route_header cfg.id h else h
