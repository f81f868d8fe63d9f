-- ===== src/Prelude/Prefix.antt =====
-- Laws of prefixes, cuts and bytes in a text.
use Prim.Native.Nat.{ℕ}
use mathlib.Core.Path.{◌≡◌, refl}
use mathlib.Core.Bool.{true, false}
use mathlib.Core.Option.{none, some}
use mathlib.Core.List.{[], ◌∷◌, ◌++◌}
use native.Mathlib.Omega.{arith}
use mathlib.Core.Logic.{inl, inr}
use revproxy.Prelude.Tests.{Option-cases}
use revproxy.Prelude.Text.{Bytes, has_prefix, strip, trim_prefix, cut_at, has_byte}

strip-append : (p s : Bytes) → strip p (p ++ s) ≡ some s
unfolding strip
strip-append [] s = refl
strip-append (c ∷ p) s = ground (arith, strip-append p s)

-- A prefix that is there is taken off.
pub trim_prefix-append : (p s : Bytes) → trim_prefix p (p ++ s) ≡ s
unfolding trim_prefix
trim_prefix-append p s = rw (strip-append p s, trim_prefix)

pub has_prefix-append : (p s : Bytes) → has_prefix p (p ++ s) ≡ true
unfolding has_prefix
has_prefix-append [] s = refl
has_prefix-append (c ∷ p) s = ground (arith, has_prefix-append p s)

-- The first such byte is where the texts are joined.
pub cut_at-append :
    (b : ℕ) (s t : Bytes) → has_byte b s ≡ false → cut_at b (s ++ b ∷ t) ≡ some (s, b ∷ t)
unfolding cut_at has_byte
cut_at-append b [] t h = ground arith
cut_at-append b (c ∷ s) t h = ground (arith, cut_at-append b s t)

pub cut_at-none : (b : ℕ) (s : Bytes) → has_byte b s ≡ false → cut_at b s ≡ none
unfolding cut_at has_byte
cut_at-none b [] h = refl
cut_at-none b (c ∷ s) h = ground (arith, cut_at-none b s)

-- What stands before the first such byte has none of them.
pub cut_at-before : (b : ℕ) (s l r : Bytes) → cut_at b s ≡ some (l, r) → has_byte b l ≡ false
unfolding cut_at has_byte
cut_at-before b [] l r e = cc
cut_at-before b (c ∷ s) l r e = elim (Option-cases (cut_at b s)) [
  | inl n ↦ ground arith
  | inr ((m, q), f) ↦ ground (arith, cut_at-before b s m q f)
]

pub has_byte-of_cut_at-none : (b : ℕ) (s : Bytes) → cut_at b s ≡ none → has_byte b s ≡ false
unfolding cut_at has_byte
has_byte-of_cut_at-none b [] e = refl
has_byte-of_cut_at-none b (c ∷ s) e = ground (arith, has_byte-of_cut_at-none b s)
