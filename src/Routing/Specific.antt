-- ===== src/Routing/Specific.antt =====
-- The route that `Engine.match` of internal/proxy/engine.go chooses.
use revproxy.Prelude.{
  ℕ, ◌≤◌, ◌<◌, ◌≡◌, ◌≢◌, ◌⊎◌, inl, inr, refl, sym, ◌∙◌, Bool, true, false, List, [], ◌∷◌, Option,
  none, some, arith, ltb, if◌then◌else◌, Bytes, Bool-cases, Option-cases, ltb→lt,
}
use revproxy.Host.{Request}
use revproxy.Routing.{Matcher, matches, score, beats, consider, match_from, match_route}

module _ (regex_match : Bytes → Bytes → Bool) (r : Request) where
  -- The score of a route for the request, if the route fits.
  abbrev pub fit : Matcher → Option ℕ
  fit h = if matches regex_match h r then score h r else none

  abbrev pub AtMost : ℕ → List Matcher → Type 0
  AtMost t [] = Unit {0}
  AtMost t (h ∷ hs) = ((s : ℕ) → fit h ≡ some s → s ≤ t) × AtMost t hs

  abbrev pub Unfit : List Matcher → Type 0
  Unfit [] = Unit {0}
  Unfit (h ∷ hs) = (matches regex_match h r ≡ false) × Unfit hs

  -- `h` stands in the list, fits with score `s`, and every route before it scores less, and every
  -- route after it no more.
  abbrev pub IsBest : List Matcher → Matcher → ℕ → Type 0
  IsBest [] h s = ⊥
  IsBest (x ∷ xs) h s =
      ((x ≡ h) × (fit x ≡ some s) × AtMost s xs)
      ⊎ (((u : ℕ) → fit x ≡ some u → u < s) × IsBest xs h s)

  -- An exact route that fits has the path of the request, so the inner test never fails.
  score-ne-none : (h : Matcher) → matches regex_match h r ≡ true → score h r ≢ none
  unfolding matches score
  score-ne-none h m = ground arith

  abbrev FromSome : List Matcher → Matcher → ℕ → Option (Matcher × ℕ) → Type 0
  FromSome hs b t none = ⊥
  FromSome hs b t (some (h, s)) = ((h ≡ b) × (s ≡ t) × AtMost t hs) ⊎ ((t < s) × IsBest hs h s)

  FromSome-skip :
      (x : Matcher) (hs : List Matcher) (b : Matcher) (t : ℕ) (o : Option (Matcher × ℕ))
      → ((u : ℕ) → fit x ≡ some u → u ≤ t)
      → FromSome hs b t o
      → FromSome (x ∷ hs) b t o
  FromSome-skip x hs b t none q h = h
  FromSome-skip x hs b t (some (h, s)) q (inl (e, k, m)) = inl (e, k, (q, m))
  FromSome-skip x hs b t (some (h, s)) q (inr (l, m)) =
      inr (l, inr (λ u e. omega (arith, q u e), m))

  only : (x : Matcher) (u s : ℕ) → fit x ≡ some u → u < s → (v : ℕ) → fit x ≡ some v → v < s
  only x u s q k v e = ground arith

  FromSome-take :
      (x : Matcher) (hs : List Matcher) (b : Matcher) (t u : ℕ) (o : Option (Matcher × ℕ))
      → fit x ≡ some u
      → t < u
      → FromSome hs x u o
      → FromSome (x ∷ hs) b t o
  FromSome-take x hs b t u none q l h = h
  FromSome-take x hs b t u (some (h, s)) q l (inl (e, k, m)) =
      inr (omega arith, inl (sym e, rw k q, rw k m))
  FromSome-take x hs b t u (some (h, s)) q l (inr (k, m)) =
      inr (omega arith, inr (only x u s q k, m))

  consider_unfit :
      (x : Matcher) (best : Option (Matcher × ℕ))
      → fit x ≡ none
      → consider regex_match r x best ≡ best
  unfolding consider
  consider_unfit x best e = ground arith

  consider-fit :
      (x : Matcher) (u : ℕ) (best : Option (Matcher × ℕ))
      → fit x ≡ some u
      → consider regex_match r x best ≡ (if beats u best then some (x, u) else best)
  unfolding consider
  consider-fit x u best e = ground arith

  consider_low :
      (x : Matcher) (u : ℕ) (b : Matcher) (t : ℕ)
      → fit x ≡ some u
      → ltb t u ≡ false
      → consider regex_match r x (some (b, t)) ≡ some (b, t)
  unfolding beats
  consider_low x u b t e l = consider-fit x u (some (b, t)) e ∙ rw l

  consider_high :
      (x : Matcher) (u : ℕ) (b : Matcher) (t : ℕ)
      → fit x ≡ some u
      → ltb t u ≡ true
      → consider regex_match r x (some (b, t)) ≡ some (x, u)
  unfolding beats
  consider_high x u b t e l = consider-fit x u (some (b, t)) e ∙ rw l

  match_from-FromSome :
      (hs : List Matcher) (b : Matcher) (t : ℕ)
      → FromSome hs b t (match_from regex_match r hs (some (b, t)))
  unfolding match_from
  match_from-FromSome [] b t = inl (refl, refl, tt)
  match_from-FromSome (x ∷ hs) b t = elim (Option-cases (fit x)) [
    | inl e ↦
        rw (consider_unfit x (some (b, t)) e)
          (FromSome-skip x hs b t _ (λ u k. cc) (match_from-FromSome hs b t))
    | inr (u, e) ↦ elim (Bool-cases (ltb t u)) [
      | inl l ↦
          rw (consider_high x u b t e l)
            (FromSome-take x hs b t u _ e (ltb→lt t u l) (match_from-FromSome hs x u))
      | inr l ↦
          rw (consider_low x u b t e l)
            (FromSome-skip x hs b t _ (λ v k. ground arith) (match_from-FromSome hs b t))
    ]
  ]

  -- No route fits and none is chosen, or the chosen route is the best of those that fit.
  abbrev pub IsRightMatch : List Matcher → Option Matcher → Type 0
  IsRightMatch hs none = Unfit hs
  IsRightMatch hs (some h) = (s : ℕ) × IsBest hs h s

  abbrev FromNone : List Matcher → Option (Matcher × ℕ) → Type 0
  FromNone hs none = Unfit hs
  FromNone hs (some (h, s)) = IsBest hs h s

  FromNone-take :
      (x : Matcher) (hs : List Matcher) (u : ℕ) (o : Option (Matcher × ℕ))
      → fit x ≡ some u
      → FromSome hs x u o
      → FromNone (x ∷ hs) o
  FromNone-take x hs u none e f = absurd f
  FromNone-take x hs u (some (h, s)) e (inl (k, l, m)) = inl (sym k, rw l e, rw l m)
  FromNone-take x hs u (some (h, s)) e (inr (k, m)) = inr (only x u s e k, m)

  FromNone-skip :
      (x : Matcher) (hs : List Matcher) (o : Option (Matcher × ℕ))
      → fit x ≡ none
      → FromNone hs o
      → FromNone (x ∷ hs) o
  FromNone-skip x hs none e f = (ground (arith, score-ne-none x), f)
  FromNone-skip x hs (some (h, s)) e f = inr (λ u k. cc, f)

  match_from-FromNone : (hs : List Matcher) → FromNone hs (match_from regex_match r hs none)
  unfolding match_from beats
  match_from-FromNone [] = tt
  match_from-FromNone (x ∷ hs) = elim (Option-cases (fit x)) [
    | inl e ↦ rw (consider_unfit x none e) (FromNone-skip x hs _ e (match_from-FromNone hs))
    | inr (u, e) ↦
        rw (consider-fit x u none e) (FromNone-take x hs u _ e (match_from-FromSome hs x u))
  ]

  -- The route that is chosen is the first of those with the highest score.
  pub match_route-IsRightMatch :
      (hs : List Matcher) → IsRightMatch hs (match_route regex_match r hs)
  unfolding match_route
  match_route-IsRightMatch hs = finish (match_from regex_match r hs none) (match_from-FromNone hs)
    where
      finish :
          (o : Option (Matcher × ℕ))
          → FromNone hs o
          → IsRightMatch hs (elim o [ none ↦ none | some (h, _) ↦ some h ])
      finish none f = f
      finish (some (h, s)) f = (s, f)
