-- ===== src/Pool/Choice.antt =====
-- Whom `Next` of internal/proxy/upstream.go chooses, under every strategy.
pub mod Picks
use revproxy.Prelude.{
  ℕ, zero, suc, ◌+◌, ◌-◌, ◌%◌, ◌^◌, ◌≤◌, ◌<◌, ◌≡◌, ◌≢◌, ◌⊎◌, inl, inr, refl, ap, sym, subst, ◌∙◌,
  Bool, true, false, ◌&&◌, not, List, [], ◌∷◌, Option, none, some, arith, ltb, ◌==◌, if◌then◌else◌,
  length, get_elem?, map, ℤ, ltb_ℤ, Bytes, codes, bytes_eq, length-map, Bool-cases, ltb→lt,
}
use native.Mathlib.Nat.{mod-lt}
use revproxy.Backend.{Backend}
use revproxy.Pool.{
  Pool, Pick, nobody, picked, panics, has_key, is_candidate, collect, or_backups, candidates, at,
  at_int, fnv32, lighter, least_conn, gain, heaviest, heaviest_of, pay, smooth_weighted, select,
  select_from, next,
}

-- Some node of the list has the address and the property.
abbrev pub Among : (Backend → Type 0) → ℕ → List Backend → Type 0
Among P k [] = ⊥
Among P k (b ∷ bs) = ((b.key ≡ k) × P b) ⊎ Among P k bs

abbrev pub All : (Backend → Type 0) → List Backend → Type 0
All P [] = Unit {0}
All P (b ∷ bs) = P b × All P bs

abbrev pub Anyone : Backend → Type 0
Anyone b = Unit {0}

abbrev pub IsEligible : List ℕ → Backend → Type 0
IsEligible exclude b = (b.alive ≡ true) × (has_key b.key exclude ≡ false)

-- A primary node that is eligible, or any eligible node where no primary one is.
abbrev pub IsEntitled : List ℕ → List Backend → Backend → Type 0
IsEntitled exclude bs b =
    IsEligible exclude b
    × ((b.backup ≡ false) ⊎ All (λ c. (c.backup ≡ false → ¬ IsEligible exclude c)) bs)

pub Among-weaken :
    (P Q : Backend → Type 0) (k : ℕ) (bs : List Backend)
    → ((b : Backend) → P b → Q b)
    → Among P k bs
    → Among Q k bs
Among-weaken P Q k [] f h = h
Among-weaken P Q k (b ∷ bs) f (inl (e, h)) = inl (e, f b h)
Among-weaken P Q k (b ∷ bs) f (inr h) = inr (Among-weaken P Q k bs f h)

collect-Among :
    (backups : Bool) (exclude : List ℕ) (k : ℕ) (bs : List Backend)
    → Among Anyone k (collect backups exclude bs)
    → Among (λ b. is_candidate backups exclude b ≡ true) k bs
unfolding collect
collect-Among backups exclude k [] h = h
collect-Among backups exclude k (b ∷ bs) h = ground (arith, collect-Among backups exclude k bs)

pub collect-nil :
    (backups : Bool) (exclude : List ℕ) (bs : List Backend)
    → collect backups exclude bs ≡ []
    → All (λ b. is_candidate backups exclude b ≡ false) bs
unfolding collect
collect-nil backups exclude [] e = tt
collect-nil backups exclude (b ∷ bs) e = ground (arith, collect-nil backups exclude bs)

pub All-weaken :
    (P Q : Backend → Type 0) (bs : List Backend) → ((b : Backend) → P b → Q b) → All P bs → All Q bs
All-weaken P Q [] f h = tt
All-weaken P Q (b ∷ bs) f (h, hs) = (f b h, All-weaken P Q bs f hs)

no_primary :
    (exclude : List ℕ) (b : Backend)
    → is_candidate false exclude b ≡ false
    → b.backup ≡ false
    → ¬ IsEligible exclude b
unfolding is_candidate
no_primary exclude b e p h = ground arith

primary :
    (exclude : List ℕ) (bs : List Backend) (b : Backend)
    → is_candidate false exclude b ≡ true
    → IsEntitled exclude bs b
unfolding is_candidate
primary exclude bs b e = (ground arith, inl (ground arith))

eligible :
    (exclude : List ℕ) (b : Backend) → is_candidate true exclude b ≡ true → IsEligible exclude b
unfolding is_candidate
eligible exclude b e = ground arith

pub candidates-Among :
    (exclude : List ℕ) (k : ℕ) (bs : List Backend)
    → Among Anyone k (candidates exclude bs)
    → Among (IsEntitled exclude bs) k bs
unfolding candidates
candidates-Among exclude k bs h = split (collect false exclude bs) refl h
  where
    split :
        (first : List Backend)
        → collect false exclude bs ≡ first
        → Among Anyone k (or_backups first (collect true exclude bs))
        → Among (IsEntitled exclude bs) k bs
    split [] e m =
        let none_left =
          All-weaken (λ b. is_candidate false exclude b ≡ false)
            (λ c. (c.backup ≡ false → ¬ IsEligible exclude c)) bs (no_primary exclude)
            (collect-nil false exclude bs e) in
        Among-weaken (λ b. is_candidate true exclude b ≡ true) (IsEntitled exclude bs) k bs
          (λ b t. (eligible exclude b t, inr none_left)) (collect-Among true exclude k bs m)
    split (c ∷ first) e m =
        Among-weaken (λ b. is_candidate false exclude b ≡ true) (IsEntitled exclude bs) k bs
          (primary exclude bs) (collect-Among false exclude k bs (rw e m))
