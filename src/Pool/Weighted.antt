-- ===== src/Pool/Weighted.antt =====
-- One round of `smoothWeighted` in internal/proxy/upstream.go, in exact arithmetic.
use revproxy.Prelude.{
  ℕ, ◌+◌, ◌^◌, ◌<◌, ◌≡◌, refl, List, [], ◌∷◌, arith, ℤ, pos, negsuc, pos_part, neg_part, add64,
  sub64, ◌⊎◌, inl, inr,
}
use revproxy.Backend.{Backend}

-- Sums over the nodes: of the positive and the negative parts of the cursors, and of the weights.
abbrev pub sum_pos : List Backend → ℕ
sum_pos [] = 0
sum_pos (b ∷ bs) = pos_part b.cur_w + sum_pos bs

abbrev pub sum_neg : List Backend → ℕ
sum_neg [] = 0
sum_neg (b ∷ bs) = neg_part b.cur_w + sum_neg bs

abbrev pub sum_weights : List Backend → ℕ
sum_weights [] = 0
sum_weights (b ∷ bs) = pos_part b.weight + sum_weights bs

-- Cursors and weights of a size at which no sum of two leaves the 64 bits.
abbrev pub IsSmall : Backend → Type 0
IsSmall b =
    (pos_part b.cur_w < 2 ^ 62)
    × (neg_part b.cur_w < 2 ^ 62)
    × (pos_part b.weight < 2 ^ 62)
    × (neg_part b.weight ≡ 0)

-- A sum that does not overflow, by its parts.
pub add64_parts :
    (a b : ℤ)
    → pos_part a < 2 ^ 62
    → neg_part a < 2 ^ 62
    → pos_part b < 2 ^ 62
    → neg_part b < 2 ^ 62
    → pos_part (add64 a b) + neg_part a + neg_part b
      ≡ neg_part (add64 a b) + pos_part a + pos_part b
unfolding add64
add64_parts (pos a) (pos b) h k m n = ground arith
add64_parts (pos a) (negsuc b) h k m n = ground arith
add64_parts (negsuc a) (pos b) h k m n = ground arith
add64_parts (negsuc a) (negsuc b) h k m n = ground arith

pub sub64_parts :
    (a b : ℤ)
    → pos_part a < 2 ^ 62
    → neg_part a < 2 ^ 62
    → pos_part b < 2 ^ 62
    → neg_part b < 2 ^ 62
    → pos_part (sub64 a b) + neg_part a + pos_part b
      ≡ neg_part (sub64 a b) + pos_part a + neg_part b
unfolding sub64
sub64_parts (pos a) (pos b) h k m n = ground arith
sub64_parts (pos a) (negsuc b) h k m n = ground arith
sub64_parts (negsuc a) (pos b) h k m n = ground arith
sub64_parts (negsuc a) (negsuc b) h k m n = ground arith

-- The parts of an integer are never both positive.
pub parts_apart : (a : ℤ) → (pos_part a ≡ 0) ⊎ (neg_part a ≡ 0)
parts_apart (pos n) = inr refl
parts_apart (negsuc n) = inl refl
