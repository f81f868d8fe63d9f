-- ===== src/ErrorPage/Header.antt =====
-- The header of the error page, internal/proxy/engine.go.
use revproxy.Prelude.{
  ℕ, zero, suc, ◌≤◌, ◌<◌, ◌≡◌, ◌≢◌, refl, ap, Bool, true, false, [], ◌∷◌, Option, if◌then◌else◌,
  arith, take, length, length-take, Bytes, has_byte,
}
use revproxy.Config.{Config, Route}
use revproxy.Backend.{Backend}
use revproxy.Headers.{Outgoing}
use revproxy.ErrorPage.{tail_size, continues, starts_rune, one_line, truncate, error_page}

-- No byte of the text is a line break.
abbrev pub IsOneLine : Bytes → Type 0
IsOneLine s = (has_byte 10 s ≡ false) × (has_byte 13 s ≡ false)

tail_follows : (c : ℕ) (s : Bytes) → continues (if starts_rune c s then tail_size c else 0) s ≡ true
unfolding starts_rune continues tail_size
tail_follows c [] = ground arith
tail_follows c (d ∷ s) = ground arith

one_line-IsOneLine : (n : ℕ) (s : Bytes) → continues n s ≡ true → IsOneLine (one_line n s)
unfolding one_line continues has_byte
one_line-IsOneLine n [] h = (refl, refl)
one_line-IsOneLine (suc n) (c ∷ s) h = ground (arith, one_line-IsOneLine n s)
one_line-IsOneLine zero (c ∷ s) h =
    let n = if starts_rune c s then tail_size c else 0 in
    ground (arith, one_line-IsOneLine n s (tail_follows c s))

has_byte-take : (b n : ℕ) (s : Bytes) → has_byte b s ≡ false → has_byte b (take n s) ≡ false
unfolding has_byte
has_byte-take b zero s h = refl
has_byte-take b (suc n) [] h = refl
has_byte-take b (suc n) (c ∷ s) h = ground (arith, has_byte-take b n s)

-- ASCII without line breaks.
abbrev pub IsPlain : Bytes → Type 0
IsPlain [] = Unit {0}
IsPlain (c ∷ s) = ((c < 128) × ((c ≢ 10) × (c ≢ 13))) × IsPlain s

one_line-plain : (s : Bytes) → IsPlain s → one_line 0 s ≡ s
unfolding one_line starts_rune tail_size
one_line-plain [] h = refl
one_line-plain (c ∷ []) h = ground arith
one_line-plain (c ∷ d ∷ s) h = ground (arith, one_line-plain (d ∷ s) h.1)

take_all : (n : ℕ) (s : Bytes) → length s ≤ n → take n s ≡ s
take_all zero [] h = refl
take_all zero (c ∷ s) h = absurd (omega arith)
take_all (suc n) [] h = refl
take_all (suc n) (c ∷ s) h = ap (λ (t : Bytes). c ∷ t) (take_all n s (omega arith))

-- Whatever the error says, the header of the error page that repeats it is one line of at most
-- 200 bytes, so that it cannot bring in other header fields. It is the text of the error itself where
-- that is ASCII, one line, and no longer.
pub error_page-IsOneLine :
    (c : Config) (cfg : Route) (dyn_domain : Bool) (b : Option Backend) (out : Outgoing)
    (msg : Bytes)
    → let header = (error_page c cfg dyn_domain b out msg).error_header in
      ((has_byte 10 header ≡ false) × (has_byte 13 header ≡ false))
      × ((length header ≤ 200) × (IsPlain msg → length msg ≤ 200 → header ≡ msg))
unfolding error_page truncate
error_page-IsOneLine c cfg dyn_domain b out msg =
    let line : Bytes = one_line 0 msg in
    let clean : IsOneLine line = one_line-IsOneLine 0 msg refl in
    (
      (has_byte-take 10 200 line clean.0, has_byte-take 13 200 line clean.1),
      (
        omega (arith, length-take 200 line),
        λ plain short. rw (one_line-plain msg plain) (take_all 200 msg short),
      ),
    )
