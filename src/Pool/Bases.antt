-- ===== src/Pool/Bases.antt =====
-- The base paths of the nodes, which `Next` of internal/proxy/upstream.go leaves alone.
use revproxy.Prelude.{
  ℕ, zero, suc, ◌+◌, ◌≡◌, inl, inr, List, [], ◌∷◌, some, ◌==◌, map, ℤ, Bytes, codes, bytes_eq,
  Bool-cases, Option-cases, trim_right, ltb, ◌^◌, ◌%◌, length, ◌-◌,
}
use revproxy.Backend.{Backend}
use revproxy.Pool.{
  Pool, Pick, nobody, picked, panics, next, select_from, select, at, at_int, least_conn, lighter,
  gain, pay, smooth_weighted, find_key, write_back, candidates,
}
use revproxy.Pool.Choice.{All}
use revproxy.Pool.Gauges.{candidates-All}

module _ (base : ℕ → Bytes) where
  -- The base path of a node, without its last slashes, is the one for its address.
  abbrev pub HasBase : Backend → Type 0
  HasBase b = trim_right b'/' b.url.path ≡ base b.key

  abbrev pub HaveBases : List Backend → Type 0
  HaveBases bs = All HasBase bs

  abbrev pub PickHasBase : Pick → Type 0
  PickHasBase nobody = Unit {0}
  PickHasBase panics = Unit {0}
  PickHasBase (picked b) = HasBase b

  at-HasBase : (bs : List Backend) (i : ℕ) → HaveBases bs → PickHasBase (at bs i)
  unfolding at
  at-HasBase [] i h = tt
  at-HasBase (b ∷ bs) zero h = h.0
  at-HasBase (b ∷ bs) (suc i) h = at-HasBase bs i h.1

  at_int-HasBase : (bs : List Backend) (u : ℕ) → HaveBases bs → PickHasBase (at_int bs u)
  unfolding at_int
  at_int-HasBase bs u h = elim (Bool-cases (ltb u (2 ^ 63))) [
    | inl e ↦ rw e (at-HasBase bs (u % length bs) h)
    | inr e ↦ elim (Bool-cases ((2 ^ 64 - u) % length bs == 0)) [
      | inl f ↦ rw (e, f) (at-HasBase bs 0 h)
      | inr f ↦ rw (e, f) tt
    ]
  ]

  least_conn-HasBase :
      (best : Backend) (bs : List Backend)
      → HasBase best
      → HaveBases bs
      → HasBase (least_conn best bs)
  unfolding least_conn
  least_conn-HasBase best [] k h = k
  least_conn-HasBase best (b ∷ bs) k h = elim (Bool-cases (lighter b best)) [
    | inl e ↦ rw (least_conn, e) (least_conn-HasBase b bs h.0 h.1)
    | inr e ↦ rw (least_conn, e) (least_conn-HasBase best bs k h.1)
  ]

  gain-HasBase : (bs : List Backend) → HaveBases bs → HaveBases (map gain bs)
  unfolding gain
  gain-HasBase [] h = tt
  gain-HasBase (b ∷ bs) h = (h.0, gain-HasBase bs h.1)

  pay-HasBase : (i : ℕ) (total : ℤ) (bs : List Backend) → HaveBases bs → HaveBases (pay i total bs)
  unfolding pay
  pay-HasBase i total [] h = tt
  pay-HasBase zero total (b ∷ bs) h = h
  pay-HasBase (suc i) total (b ∷ bs) h = (h.0, pay-HasBase i total bs h.1)

  smooth-HasBase : (bs : List Backend) → HaveBases bs → HaveBases (smooth_weighted bs).0
  unfolding smooth_weighted
  smooth-HasBase bs h = pay-HasBase _ _ (map gain bs) (gain-HasBase bs h)

  find-HasBase :
      (k : ℕ) (bs : List Backend) (c : Backend) → HaveBases bs → find_key k bs ≡ some c → HasBase c
  unfolding find_key
  find-HasBase k [] c h e = absurd cc
  find-HasBase k (b ∷ bs) c h e = elim (Bool-cases (b.key == k)) [
    | inl f ↦ (let found : some b ≡ some c = rw f at e in let same : b ≡ c = cc in rw (← same) h.0)
    | inr f ↦ find-HasBase k bs c h.1 (rw f at e)
  ]

  write_back-HasBase :
      (cands bs : List Backend) → HaveBases cands → HaveBases bs → HaveBases (write_back cands bs)
  unfolding write_back
  write_back-HasBase cands [] h k = tt
  write_back-HasBase cands (b ∷ bs) h k = elim (Option-cases (find_key b.key cands)) [
    | inl e ↦ rw e (k.0, write_back-HasBase cands bs h k.1)
    | inr (c, e) ↦ rw e (find-HasBase b.key cands c h e, write_back-HasBase cands bs h k.1)
  ]

  -- The nodes afterwards and the one that is picked.
  abbrev pub NextHasBase : Pool × Pick → Type 0
  NextHasBase (p, pick) = HaveBases p.backends × PickHasBase pick

  select-HasBase :
      (clock : ℕ) (ip : Bytes) (p : Pool) (b : Backend) (bs : List Backend)
      → HaveBases p.backends
      → HaveBases (b ∷ bs)
      → NextHasBase (select clock ip p b bs)
  unfolding select
  select-HasBase clock ip p b bs h k = elim (Bool-cases (bytes_eq p.strategy (codes "random"))) [
    | inl e ↦ rw e (h, at_int-HasBase (b ∷ bs) clock k)
    | inr e ↦ elim (Bool-cases (bytes_eq p.strategy (codes "least_conn"))) [
      | inl f ↦ rw (e, f) (h, least_conn-HasBase b bs k.0 k.1)
      | inr f ↦ elim (Bool-cases (bytes_eq p.strategy (codes "ip_hash"))) [
        | inl i ↦ rw (e, f, i) (h, at-HasBase (b ∷ bs) _ k)
        | inr i ↦ elim (Bool-cases (bytes_eq p.strategy (codes "weighted"))) [
          | inl w ↦
              rw (e, f, i, w)
                (
                  write_back-HasBase _ p.backends (smooth-HasBase (b ∷ bs) k) h,
                  at-HasBase _ _ (smooth-HasBase (b ∷ bs) k),
                )
          | inr w ↦ rw (e, f, i, w) (h, at_int-HasBase (b ∷ bs) ((p.rr + 1) % 2 ^ 64) k)
        ]
      ]
    ]
  ]

  -- `Next` keeps the base paths of the nodes, and picks a node with its own.
  pub next-HasBase :
      (clock : ℕ) (ip : Bytes) (exclude : List ℕ) (p : Pool)
      → HaveBases p.backends
      → NextHasBase (next clock ip exclude p)
  unfolding next select_from
  next-HasBase clock ip exclude p h =
      from (candidates exclude p.backends) (candidates-All HasBase exclude p.backends h)
    where
      from : (cands : List Backend) → HaveBases cands → NextHasBase (select_from clock ip p cands)
      from [] k = (h, tt)
      from (b ∷ bs) k = select-HasBase clock ip p b bs h k
