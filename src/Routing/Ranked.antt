-- ===== src/Routing/Ranked.antt =====
-- How specific the route is that `Engine.match` of internal/proxy/engine.go chooses.
use revproxy.Prelude.{
  ℕ, ◌≤◌, ◌<◌, ◌^◌, ◌≡◌, ◌⊎◌, inl, inr, sym, ap, Bool, true, List, [], ◌∷◌, Option, none, some,
  arith, if◌then◌else◌, length, Bytes, codes, bytes_eq, bytes_eq_iff, has_prefix,
}
use revproxy.Host.{Request}
use revproxy.Routing.{Matcher, matches, match_path, score, match_route}
use revproxy.Routing.Specific.{fit, AtMost, Unfit, IsBest, IsRightMatch, match_route-IsRightMatch}

-- What the path of a route is: the one path itself, a prefix of some length, or a pattern.
pub data Specificity : Type 0 where
  exact : Specificity
  prefix : ℕ → Specificity
  pattern_path : Specificity

abbrev pub specificity : Matcher → Specificity
specificity h =
    if bytes_eq h.cfg.match_kind (codes "exact")
    then exact
    else if bytes_eq h.cfg.match_kind (codes "regex")
    then pattern_path
    else prefix (length h.cfg.path)

-- The first is more specific: an exact path than any other, a prefix than a shorter one, and
-- a prefix that is not empty than a pattern.
abbrev pub Above : Specificity → Specificity → Type 0
Above exact exact = ⊥
Above exact (prefix n) = Unit {0}
Above exact pattern_path = Unit {0}
Above (prefix n) exact = ⊥
Above (prefix n) (prefix m) = m < n
Above (prefix n) pattern_path = 0 < n
Above pattern_path s = ⊥

-- The score that the source gives to each.
weight : Specificity → ℕ
weight exact = 2 ^ 30
weight (prefix n) = n
weight pattern_path = 0

-- No prefix has the weight of an exact path.
IsShort : Specificity → Type 0
IsShort exact = Unit {0}
IsShort (prefix n) = n < 2 ^ 30
IsShort pattern_path = Unit {0}

weight-Above : (a b : Specificity) → IsShort a → weight b < weight a → Above a b
unfolding weight IsShort
weight-Above exact exact h l = omega arith
weight-Above exact (prefix n) h l = tt
weight-Above exact pattern_path h l = tt
weight-Above (prefix n) exact h l = omega arith
weight-Above (prefix n) (prefix m) h l = l
weight-Above (prefix n) pattern_path h l = l
weight-Above pattern_path exact h l = omega arith
weight-Above pattern_path (prefix n) h l = omega arith
weight-Above pattern_path pattern_path h l = omega arith

weight-not-Above : (a b : Specificity) → IsShort a → weight b ≤ weight a → ¬ Above b a
unfolding weight IsShort
weight-not-Above exact exact h l = λ k. k
weight-not-Above exact (prefix n) h l = λ k. k
weight-not-Above exact pattern_path h l = λ k. k
weight-not-Above (prefix n) exact h l = λ k. omega arith
weight-not-Above (prefix n) (prefix m) h l = λ k. omega arith
weight-not-Above (prefix n) pattern_path h l = λ k. k
weight-not-Above pattern_path exact h l = λ k. omega arith
weight-not-Above pattern_path (prefix n) h l = λ k. omega arith
weight-not-Above pattern_path pattern_path h l = λ k. k

length-has_prefix : (s t : Bytes) → has_prefix s t ≡ true → length s ≤ length t
unfolding has_prefix
length-has_prefix [] t h = omega arith
length-has_prefix (c ∷ s) [] h = ground arith
length-has_prefix (c ∷ s) (d ∷ t) h = ground (arith, length-has_prefix s t)

root-length : (s : Bytes) → bytes_eq s (codes "/") ≡ true → length s ≡ 1
root-length s h = ap (λ (t : Bytes). length t) ((bytes_eq_iff s (codes "/")).0 h)

module _ (regex_match : Bytes → Bytes → Bool) (r : Request) where
  fit-weight :
      (h : Matcher)
      → matches regex_match h r ≡ true
      → fit regex_match r h ≡ some (weight (specificity h))
  unfolding matches match_path score weight
  fit-weight h m = ground (arith, root-length h.cfg.path)

  fit-matches :
      (h : Matcher) (s : ℕ) → fit regex_match r h ≡ some s → matches regex_match h r ≡ true
  fit-matches h s e = ground arith

  -- A route that fits has at most the path of the request as its prefix.
  fit-IsShort :
      (h : Matcher)
      → length r.path < 2 ^ 30
      → matches regex_match h r ≡ true
      → IsShort (specificity h)
  unfolding matches match_path IsShort
  fit-IsShort h l m = ground (arith, root-length h.cfg.path, length-has_prefix h.cfg.path r.path)

  abbrev pub NoneAbove : Matcher → List Matcher → Type 0
  NoneAbove h [] = Unit {0}
  NoneAbove h (x ∷ xs) =
      (matches regex_match x r ≡ true → ¬ Above (specificity x) (specificity h)) × NoneAbove h xs

  -- `h` stands in the list and fits, it is more specific than every route before it that fits, and no
  -- route after it that fits is more specific.
  abbrev pub IsChosen : List Matcher → Matcher → Type 0
  IsChosen [] h = ⊥
  IsChosen (x ∷ xs) h =
      ((x ≡ h) × (matches regex_match h r ≡ true) × NoneAbove h xs)
      ⊎ ((matches regex_match x r ≡ true → Above (specificity h) (specificity x)) × IsChosen xs h)

  abbrev pub IsRightChoice : List Matcher → Option Matcher → Type 0
  IsRightChoice hs none = Unfit regex_match r hs
  IsRightChoice hs (some h) = IsChosen hs h

  -- A route with the score of `h`.
  abbrev Scores : Matcher → ℕ → Type 0
  Scores h s =
      (matches regex_match h r ≡ true) × ((weight (specificity h) ≡ s) × IsShort (specificity h))

  IsBest-Scores :
      (hs : List Matcher) (h : Matcher) (s : ℕ)
      → length r.path < 2 ^ 30
      → IsBest regex_match r hs h s
      → Scores h s
  IsBest-Scores [] h s l b = absurd b
  IsBest-Scores (x ∷ xs) h s l (inl (e, f, _)) =
      let f : fit regex_match r h ≡ some s = rw (sym e) f in
      let m = fit-matches h s f in let k = fit-weight h m in (m, (cc, fit-IsShort h l m))
  IsBest-Scores (x ∷ xs) h s l (inr (_, b)) = IsBest-Scores xs h s l b

  AtMost-NoneAbove :
      (xs : List Matcher) (h : Matcher) (s : ℕ)
      → Scores h s
      → AtMost regex_match r s xs
      → NoneAbove h xs
  AtMost-NoneAbove [] h s k a = tt
  AtMost-NoneAbove (x ∷ xs) h s (m, (e, short)) (low, a) = (
    λ fits.
        weight-not-Above (specificity h) (specificity x) short
          (let le = low (weight (specificity x)) (fit-weight x fits) in omega (arith, e, le)),
    AtMost-NoneAbove xs h s (m, (e, short)) a,
  )

  IsBest-IsChosen :
      (hs : List Matcher) (h : Matcher) (s : ℕ)
      → Scores h s
      → IsBest regex_match r hs h s
      → IsChosen hs h
  IsBest-IsChosen [] h s k b = b
  IsBest-IsChosen (x ∷ xs) h s k (inl (e, _, a)) = inl (e, k.0, AtMost-NoneAbove xs h s k a)
  IsBest-IsChosen (x ∷ xs) h s k (inr (low, b)) = inr (
    λ fits.
        weight-Above (specificity h) (specificity x) k.1.1
          (let lt = low (weight (specificity x)) (fit-weight x fits) in omega (arith, k.1.0, lt)),
    IsBest-IsChosen xs h s k b,
  )

  -- For every request whose path is shorter than 2 ^ 30 bytes, and every list of routes: no route is
  -- chosen only if none fits; otherwise the chosen one stands in the list and fits, it is more
  -- specific than every route before it that fits, and no route after it that fits is more
  -- specific. An exact path is more specific than any prefix or pattern, a prefix than a shorter
  -- one, and a prefix that is not empty than a pattern; priorities play no part in this.
  pub match_route-IsChosen :
      (hs : List Matcher) → length r.path < 2 ^ 30 → IsRightChoice hs (match_route regex_match r hs)
  match_route-IsChosen hs l =
      ranked (match_route regex_match r hs) (match_route-IsRightMatch regex_match r hs)
    where
      ranked : (o : Option Matcher) → IsRightMatch regex_match r hs o → IsRightChoice hs o
      ranked none u = u
      ranked (some h) (s, b) = IsBest-IsChosen hs h s (IsBest-Scores hs h s l b) b
