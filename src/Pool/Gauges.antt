-- ===== src/Pool/Gauges.antt =====
-- The gauges of open connections in a pool, which `Next` of internal/proxy/upstream.go leaves alone.
use revproxy.Prelude.{
  ℕ, zero, suc, ◌≡◌, inl, inr, refl, Bool, true, false, List, [], ◌∷◌, Option, none, some,
  if◌then◌else◌, ◌==◌, arith, map, ℤ, Bytes, codes, bytes_eq, Bool-cases, Option-cases, ==_iff,
}
use revproxy.Backend.{Backend}
use revproxy.Pool.{
  Pool, next, select_from, select, candidates, collect, or_backups, is_candidate, gain, pay,
  smooth_weighted, find_key, write_back,
}
use revproxy.Pool.Choice.{All, All-weaken}

-- The address of each node with the number of its connections.
abbrev pub gauges : List Backend → List (ℕ × ℤ)
gauges = map (λ b. (b.key, b.conns))

abbrev pub gauge_at : ℕ → List (ℕ × ℤ) → Option ℤ
gauge_at k [] = none
gauge_at k ((j, n) ∷ g) = if j == k then some n else gauge_at k g

-- No two nodes at one address.
abbrev pub AreApart : List (ℕ × ℤ) → Type 0
AreApart [] = Unit {0}
AreApart ((k, n) ∷ g) = (gauge_at k g ≡ none) × AreApart g

-- A node with the gauge that stands at its address.
abbrev IsShown : List (ℕ × ℤ) → Backend → Type 0
IsShown g b = gauge_at b.key g ≡ some b.conns

IsShown-later :
    (k : ℕ) (n : ℤ) (g : List (ℕ × ℤ)) (b : Backend)
    → gauge_at k g ≡ none
    → IsShown g b
    → IsShown ((k, n) ∷ g) b
IsShown-later k n g b e h = ground arith

All-IsShown : (bs : List Backend) → AreApart (gauges bs) → All (IsShown (gauges bs)) bs
All-IsShown [] a = tt
All-IsShown (b ∷ bs) a = (
  ground arith,
  All-weaken _ _ bs (λ c h. IsShown-later b.key b.conns (gauges bs) c a.0 h) (All-IsShown bs a.1),
)

module _ (P : Backend → Type 0) where
  collect-All :
      (backups : Bool) (exclude : List ℕ) (bs : List Backend)
      → All P bs
      → All P (collect backups exclude bs)
  unfolding collect
  collect-All backups exclude [] h = tt
  collect-All backups exclude (b ∷ bs) h = elim (Bool-cases (is_candidate backups exclude b)) [
    | inl e ↦ rw e (h.0, collect-All backups exclude bs h.1)
    | inr e ↦ rw e (collect-All backups exclude bs h.1)
  ]

  pub candidates-All :
      (exclude : List ℕ) (bs : List Backend) → All P bs → All P (candidates exclude bs)
  unfolding candidates or_backups
  candidates-All exclude bs h =
      either (collect false exclude bs) (collect true exclude bs) (collect-All false exclude bs h)
        (collect-All true exclude bs h)
    where
      either : (l r : List Backend) → All P l → All P r → All P (or_backups l r)
      either [] r h k = k
      either (b ∷ l) r h k = h

module _ (g : List (ℕ × ℤ)) where
  gain-All : (bs : List Backend) → All (IsShown g) bs → All (IsShown g) (map gain bs)
  unfolding gain
  gain-All [] h = tt
  gain-All (b ∷ bs) h = (h.0, gain-All bs h.1)

  pay-All :
      (i : ℕ) (total : ℤ) (bs : List Backend)
      → All (IsShown g) bs
      → All (IsShown g) (pay i total bs)
  unfolding pay
  pay-All i total [] h = tt
  pay-All zero total (b ∷ bs) h = h
  pay-All (suc i) total (b ∷ bs) h = (h.0, pay-All i total bs h.1)

  smooth-All : (bs : List Backend) → All (IsShown g) bs → All (IsShown g) (smooth_weighted bs).0
  unfolding smooth_weighted
  smooth-All bs h = pay-All _ _ (map gain bs) (gain-All bs h)

  find-Shown :
      (k : ℕ) (bs : List Backend) (c : Backend)
      → All (IsShown g) bs
      → find_key k bs ≡ some c
      → (c.key ≡ k) × IsShown g c
  unfolding find_key
  find-Shown k [] c h e = absurd cc
  find-Shown k (b ∷ bs) c h e = elim (Bool-cases (b.key == k)) [
    | inl f ↦
        (let found : some b ≡ some c = rw f at e in
          let same : b ≡ c = cc in rw (← same) ((==_iff b.key k).0 f, h.0))
    | inr f ↦ find-Shown k bs c h.1 (rw f at e)
  ]

  write_back-gauges :
      (cands bs : List Backend)
      → All (IsShown g) cands
      → All (IsShown g) bs
      → gauges (write_back cands bs) ≡ gauges bs
  unfolding write_back
  write_back-gauges cands [] h k = refl
  write_back-gauges cands (b ∷ bs) h k = elim (Option-cases (find_key b.key cands)) [
    | inl e ↦ rw (e, write_back-gauges cands bs h k.1) refl
    | inr (c, e) ↦
        (let (same, shown) = find-Shown b.key cands c h e in
          let one : ◌≡◌ {A = ℕ × ℤ} (c.key, c.conns) (b.key, b.conns) =
            ground (arith, k.0, shown, same) in
          rw (e, write_back-gauges cands bs h k.1, one) refl)
  ]

select-gauges :
    (clock : ℕ) (ip : Bytes) (p : Pool) (b : Backend) (bs : List Backend)
    → gauges (write_back (smooth_weighted (b ∷ bs)).0 p.backends) ≡ gauges p.backends
    → gauges (select clock ip p b bs).0.backends ≡ gauges p.backends
unfolding select
select-gauges clock ip p b bs h = elim (Bool-cases (bytes_eq p.strategy (codes "random"))) [
  | inl e ↦ rw e refl
  | inr e ↦ elim (Bool-cases (bytes_eq p.strategy (codes "least_conn"))) [
    | inl f ↦ rw (e, f) refl
    | inr f ↦ elim (Bool-cases (bytes_eq p.strategy (codes "ip_hash"))) [
      | inl i ↦ rw (e, f, i) refl
      | inr i ↦ elim (Bool-cases (bytes_eq p.strategy (codes "weighted"))) [
        | inl w ↦ rw (e, f, i, w) h
        | inr w ↦ rw (e, f, i, w) refl
      ]
    ]
  ]
]

-- `Next` changes no gauge.
pub next-gauges :
    (clock : ℕ) (ip : Bytes) (exclude : List ℕ) (p : Pool)
    → AreApart (gauges p.backends)
    → gauges (next clock ip exclude p).0.backends ≡ gauges p.backends
unfolding next select_from
next-gauges clock ip exclude p a =
    from (candidates exclude p.backends)
      (candidates-All (IsShown (gauges p.backends)) exclude p.backends shown)
  where
    shown : All (IsShown (gauges p.backends)) p.backends
    shown = All-IsShown p.backends a

    from :
        (cands : List Backend)
        → All (IsShown (gauges p.backends)) cands
        → gauges (select_from clock ip p cands).0.backends ≡ gauges p.backends
    from [] h = refl
    from (b ∷ bs) h = select-gauges clock ip p b bs (
        write_back-gauges (gauges p.backends) (smooth_weighted (b ∷ bs)).0 p.backends
          (smooth-All (gauges p.backends) (b ∷ bs) h) shown)
