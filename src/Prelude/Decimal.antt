-- ===== src/Prelude/Decimal.antt =====
-- Whole numbers as decimal text: `%d` of package `fmt`, and the reading of package `strconv`.
use Prim.Native.Nat.{ℕ, zero, suc, ◌+◌, ◌-◌, ◌*◌, ◌/◌, ◌%◌, ◌^◌, ◌<◌}
use mathlib.Core.Path.{◌≡◌, refl, ap, ◌∙◌}
use mathlib.Core.Logic.{inl, inr}
use mathlib.Core.Bool.{Bool, true, false, ◌&&◌}
use mathlib.Core.Option.{Option, none, some}
use mathlib.Core.List.{[], ◌∷◌}
use native.Mathlib.Omega.{arith}
use revproxy.Prelude.Tests.{ltb, leb, ltb→lt, lt→ltb, le→leb, ◌==◌, if◌then◌else◌, Bool-cases}
use revproxy.Prelude.Int.{ℤ, pos, negsuc, IsInt64}
use revproxy.Prelude.Text.{Bytes, is_empty, has_byte}

-- The digits of a number in front of a text; `fuel` digits are enough below 10 ^ fuel.
unfoldable pub digits_before : ℕ → ℕ → Bytes → Bytes
digits_before zero n s = s
digits_before (suc fuel) n s =
    let rest = digits_before fuel (n / 10) ((b'0' + n % 10) ∷ s) in
    if ltb n 10 then (b'0' + n) ∷ s else rest

-- A number of 64 bits has at most twenty digits.
unfoldable pub show_ℕ : ℕ → Bytes
unfolding digits_before
show_ℕ n = digits_before 20 n []

unfoldable pub show_ℤ : ℤ → Bytes
unfolding show_ℕ
show_ℤ (pos n) = show_ℕ n
show_ℤ (negsuc n) = b'-' ∷ show_ℕ (suc n)

-- The number that digits stand for after those that were read, `none` for another byte.
unfoldable pub digits : ℕ → Bytes → Option ℕ
digits n [] = some n
digits n (c ∷ s) =
    let rest = digits (n * 10 + (c - b'0')) s in if leb b'0' c && leb c b'9' then rest else none

-- The sign in front, `true` for a minus, and the text behind it.
unfoldable pub sign_of : Bytes → Bool × Bytes
sign_of [] = (false, [])
sign_of (c ∷ s) = if c == b'-' then (true, s) else if c == b'+' then (false, s) else (false, c ∷ s)

-- -n
abbrev pub minus_ℕ : ℕ → ℤ
minus_ℕ zero = pos 0
minus_ℕ (suc n) = negsuc n

-- The test that a number with that sign is in the range of 64 bits.
abbrev pub in_range : Bool → ℕ → Option ℤ
in_range true n = if leb n (2 ^ 63) then some (minus_ℕ n) else none
in_range false n = if ltb n (2 ^ 63) then some (pos n) else none

unfoldable pub parse_signed : Bool × Bytes → Option ℤ
unfolding digits
parse_signed (minus, t) =
    if is_empty t then none else (elim (digits 0 t) [ none ↦ none | some n ↦ in_range minus n ])

-- strconv.ParseInt(s, 10, 64), `none` for an error.
unfoldable pub parse_int : Bytes → Option ℤ
unfolding parse_signed sign_of
parse_int s = parse_signed (sign_of s)

digits-digit : (m d : ℕ) (s : Bytes) → d < 10 → digits m ((b'0' + d) ∷ s) ≡ digits (m * 10 + d) s
unfolding digits
digits-digit m d s h =
    let value : m * 10 + (b'0' + d - b'0') ≡ m * 10 + d = omega arith in
    let low : leb b'0' (b'0' + d) ≡ true = ground arith in
    let high : leb (b'0' + d) b'9' ≡ true = ground arith in rw (low, high, value) refl

digits-one : (n : ℕ) (s : Bytes) → n < 10 → digits 0 ((b'0' + n) ∷ s) ≡ digits n s
digits-one n s h =
    let value : 0 * 10 + n ≡ n = omega arith in
    digits-digit 0 n s h ∙ ap (λ (m : ℕ). digits m s) value

digits-digits_before :
    (fuel n : ℕ) (s : Bytes)
    → n < 10 ^ suc fuel
    → digits 0 (digits_before (suc fuel) n s) ≡ digits n s
unfolding digits_before
digits-digits_before zero n s k =
    let small : ltb n 10 ≡ true = ground arith in rw small (digits-one n s (omega arith))
digits-digits_before (suc fuel) n s k = elim (Bool-cases (ltb n 10)) [
  | inl small ↦ rw small (digits-one n s (ltb→lt n 10 small))
  | inr big ↦
      let tail = ((b'0' + n % 10) ∷ s) in
      let whole : n / 10 * 10 + n % 10 ≡ n = omega arith in
      rw big (
        digits-digits_before fuel (n / 10) tail (omega arith)
        ∙ digits-digit (n / 10) (n % 10) s (omega arith)
        ∙ ap (λ (m : ℕ). digits m s) whole)
]

has_byte-digits_before :
    (fuel b n : ℕ) (s : Bytes)
    → b < b'0'
    → has_byte b s ≡ false
    → has_byte b (digits_before fuel n s) ≡ false
unfolding digits_before has_byte
has_byte-digits_before zero b n s h e = e
has_byte-digits_before (suc fuel) b n s h e =
    let low : (b'0' + n % 10 == b) ≡ false = ground arith in
    let alone : (b'0' + n == b) ≡ false = ground arith in
    let rest = has_byte-digits_before fuel b (n / 10) ((b'0' + n % 10) ∷ s) h (rw low e) in
    elim (Bool-cases (ltb n 10)) [ inl small ↦ rw (small, alone) e | inr big ↦ rw big rest ]

-- A sign or a dot does not stand in the digits of a number.
pub has_byte-show_ℕ : (b n : ℕ) → b < b'0' → has_byte b (show_ℕ n) ≡ false
unfolding show_ℕ has_byte
has_byte-show_ℕ b n h = has_byte-digits_before 20 b n [] h refl

pub has_byte-show_ℤ : (z : ℤ) → has_byte b'.' (show_ℤ z) ≡ false
unfolding show_ℤ has_byte
has_byte-show_ℤ (pos n) = has_byte-show_ℕ b'.' n (omega arith)
has_byte-show_ℤ (negsuc n) = has_byte-show_ℕ b'.' (suc n) (omega arith)

is_empty-digits_before :
    (fuel n : ℕ) (s : Bytes) → is_empty s ≡ false → is_empty (digits_before fuel n s) ≡ false
unfolding digits_before
is_empty-digits_before zero n s e = e
is_empty-digits_before (suc fuel) n s e = elim (Bool-cases (ltb n 10)) [
  | inl small ↦ rw small refl
  | inr big ↦ rw big (is_empty-digits_before fuel (n / 10) _ refl)
]

is_empty-show_ℕ : (n : ℕ) → is_empty (show_ℕ n) ≡ false
unfolding show_ℕ digits_before
is_empty-show_ℕ n = elim (Bool-cases (ltb n 10)) [
  | inl small ↦ rw small refl
  | inr big ↦ rw big (is_empty-digits_before 19 (n / 10) _ refl)
]

sign_of-plain :
    (s : Bytes) → has_byte b'-' s ≡ false → has_byte b'+' s ≡ false → sign_of s ≡ (false, s)
unfolding sign_of has_byte
sign_of-plain [] h k = refl
sign_of-plain (c ∷ s) h k = ground arith

digits-show_ℕ : (n : ℕ) → n < 10 ^ 20 → digits 0 (show_ℕ n) ≡ some n
unfolding show_ℕ digits
digits-show_ℕ n h = digits-digits_before 19 n [] h

parse_int-plain :
    (t : Bytes) (n : ℕ)
    → has_byte b'-' t ≡ false
    → has_byte b'+' t ≡ false
    → is_empty t ≡ false
    → digits 0 t ≡ some n
    → parse_int t ≡ in_range false n
unfolding parse_int parse_signed
parse_int-plain t n h k e d = ap parse_signed (sign_of-plain t h k) ∙ rw (e, d) refl

parse_int-minus :
    (t : Bytes) (n : ℕ)
    → is_empty t ≡ false
    → digits 0 t ≡ some n
    → parse_int (b'-' ∷ t) ≡ in_range true n
unfolding parse_int parse_signed sign_of
parse_int-minus t n e d = rw (e, d) refl

-- A number of 64 bits is read back from its text.
pub parse_int-show_ℤ : (z : ℤ) → IsInt64 z → parse_int (show_ℤ z) ≡ some z
unfolding show_ℤ
parse_int-show_ℤ (pos n) (h, _) =
    parse_int-plain (show_ℕ n) n (has_byte-show_ℕ b'-' n (omega arith))
      (has_byte-show_ℕ b'+' n (omega arith)) (is_empty-show_ℕ n) (digits-show_ℕ n (omega arith))
    ∙ rw (lt→ltb n (2 ^ 63) h) refl
parse_int-show_ℤ (negsuc n) (_, h) =
    parse_int-minus (show_ℕ (suc n)) (suc n) (is_empty-show_ℕ (suc n))
      (digits-show_ℕ (suc n) (omega arith))
    ∙ rw (le→leb (suc n) (2 ^ 63) h) refl
