-- ===== src/Pool/Fairness.antt =====
-- Runs of smooth weighted rounds of internal/proxy/upstream.go.
use native.Mathlib.Decide.{dec_le}
use revproxy.Prelude.{
  ℕ, zero, suc, ◌+◌, ◌*◌, ◌^◌, ◌≤◌, ◌<◌, ◌≡◌, inl, inr, refl, ap, subst, sym, ◌∙◌, List, [], ◌∷◌,
  arith, map, count, ℤ, pos, pos_part, neg_part, eq_of_parts,
}
use revproxy.Backend.{Backend}
use revproxy.Pool.{gain, total_weight, heaviest_of, pay, smooth_weighted}
use revproxy.Pool.Weighted.{sum_pos, sum_neg, sum_weights, parts_apart}
use revproxy.Pool.Cursors.{
  Fair, gain-Fair, pay-Fair, heaviest_of-PosAt, sums-gain, sums-pay, total_weight-Fair,
  sum_weights-map, sum_weights-pay,
}

-- `n` rounds over the same candidates: the candidates afterwards, and the places chosen, newest
-- first.
pub rounds : ℕ → List Backend → List Backend × List ℕ
rounds zero bs = (bs, [])
rounds (suc n) bs =
    let (before, picks) = rounds n bs in
    let (after, best) = smooth_weighted before in (after, best ∷ picks)

-- What holds after `t` rounds with the total weight `T`.
record IsBalanced (T t : ℕ) (picks : List ℕ) (bs : List Backend) : Type 0 where
  fair : Fair T t picks 0 bs
  even : sum_pos bs ≡ sum_neg bs
  total : sum_weights bs ≡ T

smooth_weighted-IsBalanced :
    (T t : ℕ) (picks : List ℕ) (bs : List Backend)
    → 0 < T
    → T * T < 2 ^ 62
    → t < T
    → IsBalanced T t picks bs
    → IsBalanced T (t + 1) ((smooth_weighted bs).1 ∷ picks) (smooth_weighted bs).0
unfolding smooth_weighted
smooth_weighted-IsBalanced T t picks bs p s h v =
    let small : T < 2 ^ 62 = grind arith in
    let sums = sums-gain T t 0 picks bs s (omega arith) v.fair in
    let gained = gain-Fair T t 0 picks bs s (omega arith) v.fair in
    let total : total_weight (pos 0) bs ≡ pos T =
      total_weight-Fair T t 0 0 picks bs (omega (arith, v.total)) v.fair
      ∙ ap pos (omega (arith, v.total)) in
    let chosen = heaviest_of-PosAt (map gain bs) (omega (arith, v.even, v.total)) in
    let paid =
      sums-pay T (t + 1) 0 (heaviest_of (map gain bs)) (heaviest_of (map gain bs)) picks
        (map gain bs) s (omega arith) (omega arith) chosen gained in
    rw total (record {
      fair =
          pay-Fair T (t + 1) 0 (heaviest_of (map gain bs)) (heaviest_of (map gain bs)) picks
            (map gain bs) s (omega arith) (omega arith) chosen gained;
      even = omega (arith, v.even, v.total);
      total =
          sum_weights-pay (heaviest_of (map gain bs)) (pos T) (map gain bs)
          ∙ sum_weights-map bs
          ∙ v.total;
    })

rounds-IsBalanced :
    (T n : ℕ) (bs : List Backend)
    → 0 < T
    → T * T < 2 ^ 62
    → n ≤ T
    → IsBalanced T 0 [] bs
    → IsBalanced T n (rounds n bs).1 (rounds n bs).0
unfolding rounds
rounds-IsBalanced T zero bs p s h v = v
rounds-IsBalanced T (suc n) bs p s h v =
    let e : suc n ≡ n + 1 = omega arith in
    rw e (
      smooth_weighted-IsBalanced T n (rounds n bs).1 (rounds n bs).0 p s (omega arith)
        (rounds-IsBalanced T n bs p s (omega arith) v))

-- Fresh candidates: cursors at zero, and weights that are not negative.
abbrev pub IsFresh : List Backend → Type 0
IsFresh [] = Unit {0}
IsFresh (b ∷ bs) = (b.cur_w ≡ pos 0) × (neg_part b.weight ≡ 0) × IsFresh bs

IsFresh-Fair :
    (T i : ℕ) (bs : List Backend) → 0 < T → sum_weights bs ≤ T → IsFresh bs → Fair T 0 [] i bs
IsFresh-Fair T i [] p h f = tt
IsFresh-Fair T i (b ∷ bs) p h (z, sign, rest) =
    (rw z (omega arith), rw z p, sign, omega arith, IsFresh-Fair T (i + 1) bs p (omega arith) rest)

IsFresh-even : (bs : List Backend) → IsFresh bs → (sum_pos bs ≡ 0) × (sum_neg bs ≡ 0)
IsFresh-even [] f = (refl, refl)
IsFresh-even (b ∷ bs) (z, sign, rest) =
    (rw z (omega (arith, (IsFresh-even bs rest).0)), rw z (omega (arith, (IsFresh-even bs rest).1)))

abbrev IsSettled : List Backend → Type 0
IsSettled [] = Unit {0}
IsSettled (b ∷ bs) = (b.cur_w ≡ pos 0) × IsSettled bs

-- Every place from `i` on was chosen as often as the weight of its node says.
abbrev pub IsServed : List ℕ → ℕ → List Backend → Type 0
IsServed picks i [] = Unit {0}
IsServed picks i (b ∷ bs) = (count i picks ≡ pos_part b.weight) × IsServed picks (i + 1) bs

no_debt : (T c w n : ℕ) → n < T → T * c ≡ n + T * w → n ≡ 0
no_debt T c w n h e = elim (dec_le c w) [ yes k ↦ grind arith | no k ↦ absurd (grind arith) ]

cancel : (T c w : ℕ) → 0 < T → T * c ≡ T * w → c ≡ w
cancel T c w h e = grind arith

neg_zero :
    (T c w : ℕ) (a : ℤ) → neg_part a < T → pos_part a + T * c ≡ neg_part a + T * w → neg_part a ≡ 0
neg_zero T c w a h e = elim (parts_apart a) [
  | inl z ↦ no_debt T c w (neg_part a) h (omega (arith, z))
  | inr z ↦ z
]

sum_neg-zero : (T i : ℕ) (picks : List ℕ) (bs : List Backend) → Fair T T picks i bs → sum_neg bs ≡ 0
sum_neg-zero T i picks [] f = refl
sum_neg-zero T i picks (b ∷ bs) (account, low, _, _, rest) = omega (
  arith,
  neg_zero T (count i picks) (pos_part b.weight) b.cur_w low account,
  sum_neg-zero T (i + 1) picks bs rest,
)

settled :
    (T i : ℕ) (picks : List ℕ) (bs : List Backend)
    → 0 < T
    → sum_pos bs ≡ 0
    → sum_neg bs ≡ 0
    → Fair T T picks i bs
    → IsServed picks i bs × IsSettled bs
settled T i picks [] p e n f = (tt, tt)
settled T i picks (b ∷ bs) p e n (account, low, _, _, rest) =
    let later = settled T (i + 1) picks bs p (omega arith) (omega arith) rest in
    (
      (cancel T (count i picks) (pos_part b.weight) p (omega arith), later.0),
      (eq_of_parts b.cur_w (pos 0) (omega arith), later.1),
    )

-- Only the cursors of the candidates change.
abbrev reset : Backend → Backend
reset b = record b { cur_w = pos 0 }

reset-gain : (bs : List Backend) → map reset (map gain bs) ≡ map reset bs
unfolding gain
reset-gain [] = refl
reset-gain (b ∷ bs) = ap (λ l. reset b ∷ l) (reset-gain bs)

reset-pay : (k : ℕ) (total : ℤ) (bs : List Backend) → map reset (pay k total bs) ≡ map reset bs
unfolding pay
reset-pay k total [] = refl
reset-pay zero total (b ∷ bs) = refl
reset-pay (suc k) total (b ∷ bs) = ap (λ l. reset b ∷ l) (reset-pay k total bs)

reset-rounds : (n : ℕ) (bs : List Backend) → map reset (rounds n bs).0 ≡ map reset bs
unfolding rounds smooth_weighted
reset-rounds zero bs = refl
reset-rounds (suc n) bs = reset-pay _ _ _ ∙ reset-gain (rounds n bs).0 ∙ reset-rounds n bs

reset-IsSettled : (bs : List Backend) → IsSettled bs → map reset bs ≡ bs
reset-IsSettled [] s = refl
reset-IsSettled (b ∷ bs) (z, s) = ground (arith, reset-IsSettled bs s)

IsFresh-IsSettled : (bs : List Backend) → IsFresh bs → IsSettled bs
IsFresh-IsSettled [] f = tt
IsFresh-IsSettled (b ∷ bs) (z, _, rest) = (z, IsFresh-IsSettled bs rest)

-- Smooth weighted rounds over candidates with cursors at zero and a positive total weight, whose
-- square is below 2 ^ 62: after as many rounds as the total weight each candidate was chosen
-- exactly as often as its weight says, and the candidates are again as they were.
pub rounds_fair :
    (bs : List Backend)
    → IsFresh bs
    → 0 < sum_weights bs
    → sum_weights bs * sum_weights bs < 2 ^ 62
    → IsServed (rounds (sum_weights bs) bs).1 0 bs × ((rounds (sum_weights bs) bs).0 ≡ bs)
rounds_fair bs f p s =
    let T : ℕ = sum_weights bs in
    let start : IsBalanced T 0 [] bs = record {
      fair = IsFresh-Fair T 0 bs p (omega arith) f;
      even = omega (arith, (IsFresh-even bs f).0, (IsFresh-even bs f).1);
      total = refl;
    } in
    let v = rounds-IsBalanced T T bs p s (omega arith) start in
    let n = sum_neg-zero T 0 (rounds T bs).1 (rounds T bs).0 v.fair in
    let ended = settled T 0 (rounds T bs).1 (rounds T bs).0 p (omega (arith, v.even, n)) n v.fair in
    let same : (rounds T bs).0 ≡ bs =
      sym (reset-IsSettled _ ended.1)
      ∙ reset-rounds T bs
      ∙ reset-IsSettled bs (IsFresh-IsSettled bs f) in
    (subst (IsServed (rounds T bs).1 0) same ended.0, same)
