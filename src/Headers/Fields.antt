-- ===== src/Headers/Fields.antt =====
-- Laws of a header of package net/http, under its own `Get`, `Set` and `Del`.
use revproxy.Prelude.{◌≡◌, refl, Bool, [], ◌∷◌, if◌then◌else◌, arith, Bytes, bytes_eq, bytes_eq_iff}
use revproxy.Headers.{
  Header, canonical, values_of, first_of, put_value, drop_key, header_get, header_set, header_del,
}

-- Two names for one field.
abbrev pub same_field : Bytes → Bytes → Bool
same_field p q = bytes_eq (canonical p) (canonical q)

values-put :
    (k j v : Bytes) (h : Header)
    → values_of j (put_value k v h) ≡ (if bytes_eq k j then v ∷ [] else values_of j h)
unfolding values_of put_value
values-put k j v [] = refl
values-put k j v ((i, vs) ∷ h) =
    ground (arith, bytes_eq_iff i k, bytes_eq_iff i j, bytes_eq_iff k j, values-put k j v h)

values-drop :
    (k j : Bytes) (h : Header)
    → values_of j (drop_key k h) ≡ (if bytes_eq k j then [] else values_of j h)
unfolding values_of drop_key
values-drop k j [] = ground arith
values-drop k j ((i, vs) ∷ h) =
    ground (arith, bytes_eq_iff i k, bytes_eq_iff i j, bytes_eq_iff k j, values-drop k j h)

pub header_get-set :
    (p q v : Bytes) (h : Header)
    → header_get q (header_set p v h) ≡ (if same_field p q then v else header_get q h)
unfolding header_get header_set first_of
header_get-set p q v h = ground (arith, values-put (canonical p) (canonical q) v h)

pub header_get-del :
    (p q : Bytes) (h : Header)
    → header_get q (header_del p h) ≡ (if same_field p q then [] else header_get q h)
unfolding header_get header_del first_of
header_get-del p q h = ground (arith, values-drop (canonical p) (canonical q) h)
