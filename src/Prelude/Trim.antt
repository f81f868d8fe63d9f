-- ===== src/Prelude/Trim.antt =====
-- Laws of the trimming functions of package `strings`.
use Prim.Native.Nat.{ℕ}
use mathlib.Core.Path.{◌≡◌, refl, ◌∙◌, ap}
use mathlib.Core.List.{[], ◌∷◌}
use native.Mathlib.Omega.{arith}
use revproxy.Prelude.Text.{Bytes, trim_left, trim_right}

pub trim_left_idem : (b : ℕ) (s : Bytes) → trim_left b (trim_left b s) ≡ trim_left b s
unfolding trim_left
trim_left_idem b [] = refl
trim_left_idem b (c ∷ s) = ground (arith, trim_left_idem b s)

pub trim_right_idem : (b : ℕ) (s : Bytes) → trim_right b (trim_right b s) ≡ trim_right b s
unfolding trim_right
trim_right_idem b [] = refl
trim_right_idem b (c ∷ s) = ground (arith, trim_right_idem b s)

-- The two ends are trimmed in either order.
pub trim_right-trim_left :
    (b : ℕ) (s : Bytes) → trim_right b (trim_left b s) ≡ trim_left b (trim_right b s)
unfolding trim_right trim_left
trim_right-trim_left b [] = refl
trim_right-trim_left b (c ∷ s) = ground (arith, trim_right-trim_left b s)

trim-cons :
    (b : ℕ) (t : Bytes)
    → trim_right b t ≡ t
    → trim_left b t ≡ t
    → trim_left b (trim_right b (b ∷ t)) ≡ t
unfolding trim_left trim_right
trim-cons b [] e k = ground arith
trim-cons b (x ∷ t) e k = ground arith

-- A byte put in front of a trimmed text is all that there is to trim.
pub trim-cons_trim :
    (b : ℕ) (s : Bytes)
    → trim_left b (trim_right b (b ∷ trim_left b (trim_right b s))) ≡ trim_left b (trim_right b s)
trim-cons_trim b s =
    trim-cons b (trim_left b (trim_right b s))
      (trim_right-trim_left b (trim_right b s) ∙ ap (trim_left b) (trim_right_idem b s))
      (trim_left_idem b (trim_right b s))
