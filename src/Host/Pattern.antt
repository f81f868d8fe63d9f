-- ===== src/Host/Pattern.antt =====
-- What the host patterns of internal/proxy/middleware.go mean.
use revproxy.Prelude.{
  ◌≡◌, ◌≢◌, ◌↔◌, ◌⊎◌, inl, inr, refl, ap, sym, ◌∙◌, true, false, [], ◌∷◌, ◌++◌, arith, length,
  length-append, Bool-cases, Bytes, codes, bytes_eq, bytes_eq_iff, has_prefix, has_suffix, to_lower,
}
use revproxy.Host.{without_port, match_lower, host_match}

has_suffix-append : (p x : Bytes) → has_suffix p (x ++ p) ≡ true
unfolding has_suffix
has_suffix-append [] [] = refl
has_suffix-append (c ∷ p) [] = ground (arith, bytes_eq_iff (c ∷ p) (c ∷ p))
has_suffix-append p (c ∷ x) = ground (arith, has_suffix-append p x)

-- The text in front of a suffix.
before_suffix : (p s : Bytes) → has_suffix p s ≡ true → (x : Bytes) × (s ≡ x ++ p)
unfolding has_suffix
before_suffix [] [] h = ([], refl)
before_suffix (c ∷ p) [] h = cc
before_suffix p (c ∷ s) h = elim (Bool-cases (bytes_eq p (c ∷ s))) [
  | inl e ↦ ([], sym ((bytes_eq_iff p (c ∷ s)).0 e))
  | inr e ↦ let (x, k) = before_suffix p s (ground arith) in (c ∷ x, ap (λ t. c ∷ t) k)
]

-- A name below a domain: one more part in front of the dot.
abbrev pub IsBelow : Bytes → Bytes → Type 0
IsBelow domain host = (x : Bytes) × (x ≢ []) × (host ≡ x ++ b'.' ∷ domain)

match_wild_iff :
    (domain host : Bytes) → (match_lower (b'*' ∷ b'.' ∷ domain) host ≡ true) ↔ IsBelow domain host
unfolding match_lower has_prefix
match_wild_iff domain host = (
  λ h. let (x, e) = before_suffix (b'.' ∷ domain) host (ground arith) in (x, longer x e h, e),
  λ (x, n, e).
      rw e (ground (arith, has_suffix-append (b'.' ∷ domain) x, length-append x (b'.' ∷ domain))),
)
  where
    longer :
        (x : Bytes)
        → host ≡ x ++ b'.' ∷ domain
        → match_lower (b'*' ∷ b'.' ∷ domain) host ≡ true
        → x ≢ []
    longer [] e h = ground (arith, ap (λ (s : Bytes). length s) e)
    longer (c ∷ x) e h = λ q. cc

match_lower_exact :
    (pattern host : Bytes)
    → has_prefix (codes "*.") pattern ≡ false
    → match_lower pattern host ≡ bytes_eq host pattern
unfolding match_lower
match_lower_exact pattern host h = rw h

-- A pattern `*.domain` fits exactly the names below the domain, in any case of letters: those with
-- at least one character and a dot in front of it. The domain itself does not fit.
pub host_match_wild :
    (domain host : Bytes)
    → (host_match (codes "*." ++ domain) host ≡ true)
      ↔ IsBelow (to_lower domain) (to_lower (without_port host))
unfolding host_match to_lower
host_match_wild domain host = match_wild_iff (to_lower domain) (to_lower (without_port host))

-- Any other pattern that is not empty fits exactly the host of the same name, in any case of
-- letters; the empty pattern fits every host.
pub host_match_exact :
    (pattern host : Bytes)
    → has_prefix (codes "*.") (to_lower pattern) ≡ false
    → (host_match pattern host ≡ true)
      ↔ ((pattern ≡ []) ⊎ (to_lower (without_port host) ≡ to_lower pattern))
unfolding host_match
host_match_exact [] host h = (λ _. inl refl, λ _. refl)
host_match_exact (c ∷ pattern) host h =
    let fits = match_lower_exact (to_lower (c ∷ pattern)) (to_lower (without_port host)) h in
    let same = bytes_eq_iff (to_lower (without_port host)) (to_lower (c ∷ pattern)) in
    (λ t. inr (same.0 (sym fits ∙ t)), λ t. fits ∙ same.1 (not_empty t))
  where
    not_empty :
        (◌≡◌ {A = Bytes} (c ∷ pattern) [] ⊎ (to_lower (without_port host) ≡ to_lower (c ∷ pattern)))
        → to_lower (without_port host) ≡ to_lower (c ∷ pattern)
    not_empty (inl e) = cc
    not_empty (inr e) = e
