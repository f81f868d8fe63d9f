-- ===== src/Pool/Choice/Picks.antt =====
-- The strategies of `Next` in internal/proxy/upstream.go and their candidates.
use native.Mathlib.Nat.{mod-lt}
use revproxy.Prelude.{
  ℕ, zero, suc, ◌+◌, ◌%◌, ◌^◌, ◌≤◌, ◌<◌, ◌≡◌, inl, inr, refl, ap, List, [], ◌∷◌, arith, length, map,
  ℤ, pos, ltb_ℤ, Bytes, Bool-cases,
}
use revproxy.Backend.{Backend}
use revproxy.Pool.Choice.{Among, Anyone}
use revproxy.Pool.{
  Pool, Pick, nobody, picked, panics, at, at_int, fnv32, least_conn, gain, heaviest, heaviest_of,
  total_weight, pay, smooth_weighted, select,
}

-- The pick is a node whose address is among the candidates.
abbrev pub IsFrom : List Backend → Pick → Type 0
IsFrom cands nobody = ⊥
IsFrom cands panics = ⊥
IsFrom cands (picked b) = Among Anyone b.key cands

pub at-IsFrom : (cands : List Backend) (i : ℕ) → i < length cands → IsFrom cands (at cands i)
unfolding at
at-IsFrom [] i h = elim h [ ]
at-IsFrom (b ∷ bs) zero h = inl (refl, tt)
at-IsFrom (b ∷ bs) (suc i) h = IsFrom-cons b bs (at bs i) (at-IsFrom bs i (omega arith))
  where
    IsFrom-cons : (b : Backend) (bs : List Backend) (p : Pick) → IsFrom bs p → IsFrom (b ∷ bs) p
    IsFrom-cons b bs nobody h = h
    IsFrom-cons b bs panics h = h
    IsFrom-cons b bs (picked c) h = inr h

at_int-IsFrom :
    (b : Backend) (bs : List Backend) (u : ℕ) → u < 2 ^ 63 → IsFrom (b ∷ bs) (at_int (b ∷ bs) u)
unfolding at_int
at_int-IsFrom b bs u h =
    ground (
      arith,
      at-IsFrom (b ∷ bs) (u % length (b ∷ bs)),
      mod-lt u {m = length (b ∷ bs)} (omega arith),
    )

at_mod-IsFrom :
    (b : Backend) (bs : List Backend) (u : ℕ) → IsFrom (b ∷ bs) (at (b ∷ bs) (u % length (b ∷ bs)))
at_mod-IsFrom b bs u = at-IsFrom (b ∷ bs) (u % length (b ∷ bs)) (mod-lt u (omega arith))

least_conn-Among :
    (best : Backend) (bs : List Backend) → Among Anyone (least_conn best bs).key (best ∷ bs)
unfolding least_conn
least_conn-Among best [] = inl (refl, tt)
least_conn-Among best (b ∷ bs) = ground (arith, least_conn-Among b bs, least_conn-Among best bs)

-- The loop ends at the place that it started with, or at one that it has seen.
pub heaviest-lt :
    (i best n : ℕ) (value : ℤ) (bs : List Backend)
    → best < n
    → i + length bs ≤ n
    → heaviest i best value bs < n
unfolding heaviest
heaviest-lt i best n value [] h k = h
heaviest-lt i best n value (b ∷ bs) h k = elim (Bool-cases (ltb_ℤ value b.cur_w)) [
  | inl t ↦ rw t (heaviest-lt (i + 1) i n b.cur_w bs (omega arith) (omega arith))
  | inr t ↦ rw t (heaviest-lt (i + 1) best n value bs h (omega arith))
]

length-pay : (i : ℕ) (total : ℤ) (bs : List Backend) → length (pay i total bs) ≡ length bs
unfolding pay
length-pay i total [] = refl
length-pay zero total (b ∷ bs) = refl
length-pay (suc i) total (b ∷ bs) = ap suc (length-pay i total bs)

pay-Among :
    (i k : ℕ) (total : ℤ) (bs : List Backend) → Among Anyone k (pay i total bs) → Among Anyone k bs
unfolding pay
pay-Among i k total [] h = h
pay-Among zero k total (b ∷ bs) h = h
pay-Among (suc i) k total (b ∷ bs) (inl h) = inl h
pay-Among (suc i) k total (b ∷ bs) (inr h) = inr (pay-Among i k total bs h)

gain-Among : (k : ℕ) (bs : List Backend) → Among Anyone k (map gain bs) → Among Anyone k bs
unfolding gain
gain-Among k [] h = h
gain-Among k (b ∷ bs) (inl h) = inl h
gain-Among k (b ∷ bs) (inr h) = inr (gain-Among k bs h)

IsFrom-mono :
    (cands cands' : List Backend) (p : Pick)
    → ((k : ℕ) → Among Anyone k cands → Among Anyone k cands')
    → IsFrom cands p
    → IsFrom cands' p
IsFrom-mono cands cands' nobody f h = h
IsFrom-mono cands cands' panics f h = h
IsFrom-mono cands cands' (picked b) f h = f b.key h

smooth-IsFrom :
    (b : Backend) (bs : List Backend)
    → IsFrom (b ∷ bs) (at (smooth_weighted (b ∷ bs)).0 (smooth_weighted (b ∷ bs)).1)
unfolding smooth_weighted heaviest_of
smooth-IsFrom b bs =
    let gained = map gain (b ∷ bs) in
    let best = heaviest 1 0 (gain b).cur_w (map gain bs) in
    let total = total_weight (pos 0) (b ∷ bs) in
    IsFrom-mono (pay best total gained) (b ∷ bs) (at (pay best total gained) best)
      (λ k h. gain-Among k (b ∷ bs) (pay-Among best k total gained h))
      (at-IsFrom (pay best total gained) best (
        rw (length-pay best total gained) (
          heaviest-lt 1 0 (length gained) (gain b).cur_w (map gain bs) (omega arith)
            (omega arith))))

-- For at least one candidate some candidate is chosen, whatever the strategy.
pub select-IsFrom :
    (clock : ℕ) (client_ip : Bytes) (p : Pool) (b : Backend) (bs : List Backend)
    → clock < 2 ^ 63
    → p.rr + 1 < 2 ^ 63
    → IsFrom (b ∷ bs) (select clock client_ip p b bs).1
unfolding select
select-IsFrom clock client_ip p b bs c r = ground (
  arith,
  at_int-IsFrom b bs clock c,
  at_int-IsFrom b bs ((p.rr + 1) % 2 ^ 64),
  at_mod-IsFrom b bs (fnv32 client_ip),
  least_conn-Among b bs,
  smooth-IsFrom b bs,
)
