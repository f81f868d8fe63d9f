-- ===== src/Pool/Cursors.antt =====
-- The cursors in a smooth weighted round of internal/proxy/upstream.go.
use revproxy.Prelude.{
  ℕ, zero, suc, ◌+◌, ◌*◌, ◌^◌, ◌≤◌, ◌<◌, ◌≡◌, ◌⊎◌, inl, inr, refl, ap, ◌∙◌, List, [], ◌∷◌, arith,
  map, count, ℤ, pos, pos_part, neg_part, add64, sub64, ltb_ℤ→lt, eq_of_parts,
}
use revproxy.Backend.{Backend}
use revproxy.Pool.{gain, total_weight, heaviest, heaviest_of, pay}
use revproxy.Pool.Weighted.{sum_pos, sum_neg, sum_weights, add64_parts, sub64_parts, parts_apart}

-- After `t` rounds with total `T` every cursor is t times the weight less T for each time chosen, and
-- above -T; the places count from `i`.
abbrev pub Fair : ℕ → ℕ → List ℕ → ℕ → List Backend → Type 0
Fair T t picks i [] = Unit {0}
Fair T t picks i (b ∷ bs) =
    (pos_part b.cur_w + T * count i picks ≡ neg_part b.cur_w + t * pos_part b.weight)
    × (neg_part b.cur_w < T)
    × (neg_part b.weight ≡ 0)
    × (pos_part b.weight ≤ T)
    × Fair T t picks (i + 1) bs

-- The sizes that rule an overflow out.
cursor_small :
    (T t c w : ℕ) (a : ℤ)
    → pos_part a + T * c ≡ neg_part a + t * w
    → neg_part a < T
    → w ≤ T
    → t ≤ T
    → T * T < 2 ^ 62
    → (pos_part a < 2 ^ 62) × (neg_part a < 2 ^ 62) × (w < 2 ^ 62)
cursor_small T t c w a e n h k s = grind (arith, parts_apart a)

pub gain-Fair :
    (T t i : ℕ) (picks : List ℕ) (bs : List Backend)
    → T * T < 2 ^ 62
    → t ≤ T
    → Fair T t picks i bs
    → Fair T (t + 1) picks i (map gain bs)
unfolding gain
gain-Fair T t i picks [] s h f = tt
gain-Fair T t i picks (b ∷ bs) s h (account, low, sign, fits, rest) =
    let small = cursor_small T t (count i picks) (pos_part b.weight) b.cur_w account low fits h s in
    let parts = add64_parts b.cur_w b.weight small.0 small.1 small.2 (omega arith) in
    let apart = parts_apart (add64 b.cur_w b.weight) in
    (omega arith, omega arith, sign, fits, gain-Fair T t (i + 1) picks bs s h rest)

-- A later place is not the chosen one.
Fair-skip :
    (T t i k : ℕ) (picks : List ℕ) (bs : List Backend)
    → k < i
    → Fair T t picks i bs
    → Fair T t (k ∷ picks) i bs
Fair-skip T t i k picks [] h f = tt
Fair-skip T t i k picks (b ∷ bs) h (account, low, sign, fits, rest) =
    (ground arith, low, sign, fits, Fair-skip T t (i + 1) k picks bs (omega arith) rest)

-- The node at place `r`, counted from `i`, has a positive cursor.
abbrev pub PosAt : ℕ → List Backend → ℕ → Type 0
PosAt i [] r = ⊥
PosAt i (b ∷ bs) r = ((r ≡ i) × (0 < pos_part b.cur_w)) ⊎ PosAt (i + 1) bs r

PosAt-ge : (i r : ℕ) (bs : List Backend) → PosAt i bs r → i ≤ r
PosAt-ge i r [] h = absurd h
PosAt-ge i r (b ∷ bs) (inl h) = omega arith
PosAt-ge i r (b ∷ bs) (inr h) = omega (arith, PosAt-ge (i + 1) r bs h)

pub pay-Fair :
    (T t i k r : ℕ) (picks : List ℕ) (bs : List Backend)
    → T * T < 2 ^ 62
    → t ≤ T
    → r ≡ i + k
    → PosAt i bs r
    → Fair T t picks i bs
    → Fair T t (r ∷ picks) i (pay k (pos T) bs)
unfolding pay
pay-Fair T t i k r picks [] s h a p f = tt
pay-Fair T t i zero r picks (b ∷ bs) s h a (inr p) f =
    absurd (omega (arith, PosAt-ge (i + 1) r bs p))
pay-Fair T t i zero r picks (b ∷ bs) s h a (inl (q, p)) (account, low, sign, fits, rest) =
    let small = cursor_small T t (count i picks) (pos_part b.weight) b.cur_w account low fits h s in
    let total_small : T < 2 ^ 62 = grind arith in
    let parts = sub64_parts b.cur_w (pos T) small.0 small.1 total_small (omega arith) in
    let apart = parts_apart (sub64 b.cur_w (pos T)) in
    let apart' = parts_apart b.cur_w in
    let hit : count i (r ∷ picks) ≡ count i picks + 1 = ground arith in
    (
      rw hit (omega arith),
      omega arith,
      sign,
      fits,
      Fair-skip T t (i + 1) r picks bs (omega arith) rest,
    )
pay-Fair T t i (suc k) r picks (b ∷ bs) s h a (inl (q, p)) f = absurd (omega arith)
pay-Fair T t i (suc k) r picks (b ∷ bs) s h a (inr p) (account, low, sign, fits, rest) =
    (ground arith, low, sign, fits, pay-Fair T t (i + 1) k r picks bs s h (omega arith) p rest)

heaviest-PosAt :
    (i best : ℕ) (value : ℤ) (bs : List Backend)
    → ((0 < pos_part value) ⊎ (0 < sum_pos bs))
    → ((heaviest i best value bs ≡ best) × (0 < pos_part value))
      ⊎ PosAt i bs (heaviest i best value bs)
unfolding heaviest
heaviest-PosAt i best value [] (inl h) = inl (refl, h)
heaviest-PosAt i best value [] (inr h) = absurd (omega arith)
heaviest-PosAt i best value (b ∷ bs) h =
    let apart = parts_apart value in
    let apart' = parts_apart b.cur_w in
    ground (
      arith,
      ltb_ℤ→lt value b.cur_w,
      heaviest-PosAt (i + 1) i b.cur_w bs,
      heaviest-PosAt (i + 1) best value bs,
    )

positive_sum : (m n : ℕ) → 0 < m + n → (0 < m) ⊎ (0 < n)
positive_sum zero n h = inr (omega arith)
positive_sum (suc m) n h = inl (omega arith)

pub heaviest_of-PosAt : (bs : List Backend) → 0 < sum_pos bs → PosAt 0 bs (heaviest_of bs)
unfolding heaviest_of
heaviest_of-PosAt [] h = elim h [ ]
heaviest_of-PosAt (b ∷ bs) h = heaviest-PosAt 1 0 b.cur_w bs (positive_sum _ _ h)

-- The sums of the cursors: a round adds the total weight and takes it off again.
pub sums-gain :
    (T t i : ℕ) (picks : List ℕ) (bs : List Backend)
    → T * T < 2 ^ 62
    → t ≤ T
    → Fair T t picks i bs
    → sum_pos (map gain bs) + sum_neg bs ≡ sum_neg (map gain bs) + sum_pos bs + sum_weights bs
unfolding gain
sums-gain T t i picks [] s h f = refl
sums-gain T t i picks (b ∷ bs) s h (account, low, sign, fits, rest) =
    let small = cursor_small T t (count i picks) (pos_part b.weight) b.cur_w account low fits h s in
    let parts = add64_parts b.cur_w b.weight small.0 small.1 small.2 (omega arith) in
    omega (arith, sums-gain T t (i + 1) picks bs s h rest)

pub sums-pay :
    (T t i k r : ℕ) (picks : List ℕ) (bs : List Backend)
    → T * T < 2 ^ 62
    → t ≤ T
    → r ≡ i + k
    → PosAt i bs r
    → Fair T t picks i bs
    → sum_pos (pay k (pos T) bs) + sum_neg bs + T ≡ sum_neg (pay k (pos T) bs) + sum_pos bs
unfolding pay
sums-pay T t i k r picks [] s h a p f = absurd p
sums-pay T t i zero r picks (b ∷ bs) s h a p (account, low, sign, fits, rest) =
    let small = cursor_small T t (count i picks) (pos_part b.weight) b.cur_w account low fits h s in
    let total_small : T < 2 ^ 62 = grind arith in
    let parts = sub64_parts b.cur_w (pos T) small.0 small.1 total_small (omega arith) in omega arith
sums-pay T t i (suc k) r picks (b ∷ bs) s h a (inl (q, p)) f = absurd (omega arith)
sums-pay T t i (suc k) r picks (b ∷ bs) s h a (inr p) (account, low, sign, fits, rest) =
    omega (arith, sums-pay T t (i + 1) k r picks bs s h (omega arith) p rest)

pub total_weight-Fair :
    (T t i a : ℕ) (picks : List ℕ) (bs : List Backend)
    → a + sum_weights bs < 2 ^ 62
    → Fair T t picks i bs
    → total_weight (pos a) bs ≡ pos (a + sum_weights bs)
unfolding total_weight
total_weight-Fair T t i a picks [] s f = ap pos (omega arith)
total_weight-Fair T t i a picks (b ∷ bs) s (_, _, sign, _, rest) =
    let parts =
      add64_parts (pos a) b.weight (omega arith) (omega arith) (omega arith) (omega arith) in
    let apart = parts_apart (add64 (pos a) b.weight) in
    let next : add64 (pos a) b.weight ≡ pos (a + pos_part b.weight) =
      eq_of_parts _ _ (omega arith) in
    rw next (
      total_weight-Fair T t (i + 1) (a + pos_part b.weight) picks bs (omega arith) rest
      ∙ ap pos (omega arith))

pub sum_weights-map : (bs : List Backend) → sum_weights (map gain bs) ≡ sum_weights bs
unfolding gain
sum_weights-map [] = refl
sum_weights-map (b ∷ bs) = ap (λ n. pos_part b.weight + n) (sum_weights-map bs)

pub sum_weights-pay :
    (k : ℕ) (total : ℤ) (bs : List Backend) → sum_weights (pay k total bs) ≡ sum_weights bs
unfolding pay
sum_weights-pay k total [] = refl
sum_weights-pay zero total (b ∷ bs) = refl
sum_weights-pay (suc k) total (b ∷ bs) =
    ap (λ n. pos_part b.weight + n) (sum_weights-pay k total bs)
