-- ===== src/Headers/Applied.antt =====
-- What the header operations of a route come to, internal/proxy/engine.go.
use revproxy.Prelude.{
  ◌≡◌, refl, Bool, true, false, ◌&&◌, not, List, [], ◌∷◌, Option, none, some, if◌then◌else◌, arith,
  Bytes, is_empty, bytes_eq_iff,
}
use revproxy.Config.{Route, Kv}
use revproxy.Backend.{Backend}
use revproxy.Headers.{
  Header, canonical, header_get, header_set, header_del, set_all, del_all, Outgoing, rewrite,
  route_header, modify_response,
}
use revproxy.Headers.Fields.{same_field, header_get-set, header_get-del}

-- The value of the last entry with a name for the field.
pub last_value : Bytes → List Kv → Option Bytes
last_value q [] = none
last_value q (kv ∷ kvs) = elim (last_value q kvs) [
  | some v ↦ some v
  | none ↦ if not (is_empty kv.name) && same_field kv.name q then some kv.value else none
]

abbrev pub value_or : Option Bytes → Bytes → Bytes
value_or none d = d
value_or (some v) d = v

pub is_removed : Bytes → List Bytes → Bool
is_removed q [] = false
is_removed q (name ∷ names) = if same_field name q then true else is_removed q names

get-set_all :
    (q : Bytes) (kvs : List Kv) (h : Header)
    → header_get q (set_all kvs h) ≡ value_or (last_value q kvs) (header_get q h)
unfolding set_all last_value
get-set_all q [] h = refl
get-set_all q (kv ∷ kvs) h = ground (
  arith,
  get-set_all q kvs (if is_empty kv.name then h else header_set kv.name kv.value h),
  header_get-set kv.name q kv.value h,
)

get-del_all :
    (q : Bytes) (names : List Bytes) (h : Header)
    → header_get q (del_all names h) ≡ (if is_removed q names then [] else header_get q h)
unfolding del_all is_removed
get-del_all q [] h = refl
get-del_all q (name ∷ names) h =
    ground (arith, get-del_all q names (header_del name h), header_get-del name q h)

module _ (set_x_forwarded : Header → Header) where
  -- A request that goes out, to a node or to the domain in the path: every header field that the
  -- route removes is empty, any other has the value of the last entry of the route for it, in any
  -- case of letters, and one with no entry is what `SetXForwarded` left.
  pub header_get-rewrite :
      (cfg : Route) (dyn_domain : Bool) (in_host in_path : Bytes) (b : Backend) (out : Outgoing)
      (q : Bytes)
      → header_get q (rewrite set_x_forwarded cfg dyn_domain in_host in_path (some b) out).header
        ≡ (if is_removed q cfg.headers.remove
            then []
            else value_or
                (last_value q cfg.headers.request)
                (header_get q (set_x_forwarded out.header)))
  unfolding rewrite
  header_get-rewrite cfg dyn_domain in_host in_path b out q =
      let h = set_x_forwarded out.header in
      let sent = get-del_all q cfg.headers.remove (set_all cfg.headers.request h) in
      ground (arith, sent, get-set_all q cfg.headers.request h)

get-eq : (p q : Bytes) (h : Header) → same_field p q ≡ true → header_get p h ≡ header_get q h
unfolding header_get
get-eq p q h e = cc ((bytes_eq_iff (canonical p) (canonical q)).0 e)

-- A response: a header field has the value of the last entry of the route for it, or what the
-- upstream sent; the field `X-Revproxy-Route` has the id of the route where that is empty.
pub header_get-modify_response :
    (cfg : Route) (h : Header) (q : Bytes)
    → let v = value_or (last_value q cfg.headers.response) (header_get q h) in
      header_get q (modify_response cfg h)
      ≡ (if same_field route_header q && is_empty v then cfg.id else v)
unfolding modify_response
header_get-modify_response cfg h q =
    let out = set_all cfg.headers.response h in
    ground (
      arith,
      get-set_all q cfg.headers.response h,
      get-eq route_header q out,
      header_get-set route_header q cfg.id out,
    )
