-- ===== src/Headers/Tests.antt =====
-- Examples for headers.
use revproxy.Prelude.{◌≡◌, refl, false, if◌then◌else◌, [], ◌∷◌, some, codes, bytes_eq}
use revproxy.Config.{Route, HeaderOp}
use revproxy.Headers.{canonical, header_get, rewrite, Outgoing}
use revproxy.Headers.Applied.{last_value, value_or, is_removed, header_get-rewrite}
use revproxy.Samples.{a_route, a_url, node}

canonical_name : canonical (codes "x-forwarded-FOR") ≡ codes "X-Forwarded-For"
unfolding canonical
canonical_name = refl

odd_name : canonical (codes "x y") ≡ codes "x y"
unfolding canonical
odd_name = refl

abbrev ops : HeaderOp
ops = record {
  request =
      record { name = codes "x-a"; value = codes "1" }
      ∷ record { name = codes "X-A"; value = codes "2" }
      ∷ [];
  response = [];
  remove = codes "cookie" ∷ [];
}

abbrev out : Outgoing
out = record {
  url = a_url (codes "a") (codes "/");
  host = [];
  header = (codes "Cookie", codes "c" ∷ []) ∷ [];
}

abbrev with_ops : Route
with_ops = record a_route { headers = ops }

header_get-rewrite_example :
    header_get
      (codes "X-A")
      (rewrite (λ h. h) with_ops false (codes "h") (codes "/") (some (node 1 1)) out).header
    ≡ (if is_removed (codes "X-A") ops.remove
        then []
        else value_or (last_value (codes "X-A") ops.request) (header_get (codes "X-A") out.header))
header_get-rewrite_example =
    header_get-rewrite (λ h. h) with_ops false (codes "h") (codes "/") (node 1 1) out (codes "X-A")

last_wins :
    header_get
      (codes "x-A")
      (rewrite (λ h. h) with_ops false (codes "h") (codes "/") (some (node 1 1)) out).header
    ≡ codes "2"
unfolding rewrite header_get bytes_eq
last_wins = refl
