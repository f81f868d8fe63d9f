-- ===== src/Routing/Dynamic.antt =====
-- A target domain in the path of the request, internal/proxy/engine.go.
use revproxy.Prelude.{
  ◌≡◌, ◌≢◌, ◌⊎◌, inl, inr, false, [], ◌∷◌, arith, Option-cases, Bytes, codes, has_prefix, has_byte,
  trim_prefix, cut_at, cut_at-before, has_byte-of_cut_at-none,
}
use revproxy.Routing.{route_path_inner, has_any, blanks, before_slash, domain_in, dyn_domain_of}

-- A domain that a request may name.
abbrev pub IsDomain : Bytes → Type 0
IsDomain dom =
    (dom ≢ [])
    × (has_byte b'/' dom ≡ false)
    × (has_prefix (codes ".") dom ≡ false)
    × (has_any blanks dom ≡ false)

before_slash-no_slash : (s : Bytes) → has_byte b'/' (before_slash s) ≡ false
unfolding before_slash
before_slash-no_slash s = elim (Option-cases (cut_at b'/' s)) [
  | inl e ↦ rw (e, before_slash) (has_byte-of_cut_at-none b'/' s e)
  | inr ((l, r), e) ↦ rw (e, before_slash) (cut_at-before b'/' s l r e)
]

domain_in-IsDomain : (inner : Bytes) → (domain_in inner ≡ []) ⊎ IsDomain (domain_in inner)
unfolding domain_in
domain_in-IsDomain inner = ground (arith, before_slash-no_slash (trim_prefix (codes "/") inner))

-- Whatever the request path and the prefix of the route, the target is none or a domain with no
-- slash and no blank that does not begin with a dot.
pub dyn_domain_of-IsDomain :
    (prefix path : Bytes) → (dyn_domain_of prefix path ≡ []) ⊎ IsDomain (dyn_domain_of prefix path)
unfolding dyn_domain_of
dyn_domain_of-IsDomain prefix path = domain_in-IsDomain (route_path_inner path prefix)

-- What may follow the domain: nothing, or a path.
abbrev pub IsRest : Bytes → Type 0
IsRest rest = (rest ≡ []) ⊎ ((tail : Bytes) × (rest ≡ b'/' ∷ tail))
