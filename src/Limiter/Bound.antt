-- ===== src/Limiter/Bound.antt =====
-- How many requests the token bucket of internal/proxy/middleware.go lets through.
use revproxy.Prelude.{ℕ, ◌+◌, ◌-◌, ◌*◌, ◌≤◌, ◌≡◌, List, [], ◌∷◌, some, arith, if◌then◌else◌}
use revproxy.Limiter.{Bucket, one, empty_bucket, started, refill, spend, take_token}

-- The calls of `take` on one bucket, newest first: the bucket afterwards and the number of tokens
-- that were given.
pub run_takes : ℕ → ℕ → List ℕ → Bucket × ℕ
run_takes rps burst [] = (empty_bucket, 0)
run_takes rps burst (now ∷ times) =
    let (b, given) = run_takes rps burst times in
    let (after, fine) = take_token rps burst now b in (after, if fine then given + 1 else given)

-- The times do not run backwards; `first` is the oldest.
abbrev pub Ascends : ℕ → List ℕ → Type 0
Ascends first [] = Unit {0}
Ascends first (now ∷ []) = now ≡ first
Ascends first (now ∷ earlier ∷ times) = (earlier ≤ now) × Ascends first (earlier ∷ times)

abbrev pub newest : ℕ → List ℕ → ℕ
newest first [] = first
newest first (now ∷ times) = now

-- What holds of a bucket that was used from `first` until `now`.
record IsWithin (rps burst first now given : ℕ) (b : Bucket) : Type 0 where
  used : b.last ≡ some now
  capped : b.tokens ≤ burst * one
  paid : given * one + b.tokens ≤ burst * one + (now - first) * rps
  later : first ≤ now

elapsed_split :
    (first last now rps : ℕ)
    → first ≤ last
    → last ≤ now
    → (now - first) * rps ≡ (last - first) * rps + (now - last) * rps
elapsed_split first last now rps h k =
    let e : now - first ≡ (last - first) + (now - last) = omega arith in rw e (omega arith)

-- What holds between the refilling and the spending.
refill-paid :
    (rps burst first last now given tokens : ℕ)
    → tokens ≤ burst * one
    → given * one + tokens ≤ burst * one + (last - first) * rps
    → first ≤ last
    → last ≤ now
    → let (full, at) = refill rps burst now (tokens, last) in
      (full ≤ burst * one) × (given * one + full ≤ burst * one + (now - first) * rps) × (at ≡ now)
unfolding refill
refill-paid rps burst first last now given tokens c p h k =
    let e = elapsed_split first last now rps h k in ground arith

spend-IsWithin :
    (rps burst first now given : ℕ) (tl : ℕ × ℕ)
    → tl.0 ≤ burst * one
    → given * one + tl.0 ≤ burst * one + (now - first) * rps
    → tl.1 ≡ now
    → first ≤ now
    → IsWithin rps burst first now (if (spend tl).1 then given + 1 else given) (spend tl).0
unfolding spend
spend-IsWithin rps burst first now given (tokens, last) c p e h = record {
  used = ground arith;
  capped = ground arith;
  paid = ground arith;
  later = h;
}

first_take :
    (rps burst first : ℕ)
    → let r = take_token rps burst first empty_bucket in
      IsWithin rps burst first first (if r.1 then 0 + 1 else 0) r.0
unfolding take_token
first_take rps burst first =
    let filled =
      refill-paid rps burst first first first 0 (burst * one) (omega arith) (omega arith)
        (omega arith) (omega arith) in
    spend-IsWithin rps burst first first 0 (refill rps burst first (burst * one, first)) filled.0
      filled.1 filled.2 (omega arith)

next_take :
    (rps burst first last now given : ℕ) (b : Bucket)
    → IsWithin rps burst first last given b
    → last ≤ now
    → let r = take_token rps burst now b in
      IsWithin rps burst first now (if r.1 then given + 1 else given) r.0
unfolding take_token
next_take rps burst first last now given b v h =
    let filled = refill-paid rps burst first last now given b.tokens v.capped v.paid v.later h in
    let start : started burst now b ≡ (b.tokens, last) = rw (v.used, started) in
    rw start (
      spend-IsWithin rps burst first now given (refill rps burst now (b.tokens, last)) filled.0
        filled.1 filled.2 (omega (arith, v.later)))

run_takes-IsWithin :
    (rps burst first now : ℕ) (times : List ℕ)
    → Ascends first (now ∷ times)
    → let r = run_takes rps burst (now ∷ times) in IsWithin rps burst first now r.1 r.0
unfolding run_takes
run_takes-IsWithin rps burst first now [] a = rw a (first_take rps burst first)
run_takes-IsWithin rps burst first now (last ∷ times) (h, a) =
    next_take rps burst first last now _ _ (run_takes-IsWithin rps burst first last times a) h

-- A bucket that is used from `first` until `now`, by a clock that does not run backwards, gives no
-- more tokens than the burst and what the rate earns in the time between, and never holds more
-- than the burst.
pub run_takes_bound :
    (rps burst first now : ℕ) (times : List ℕ)
    → Ascends first (now ∷ times)
    → let (b, given) = run_takes rps burst (now ∷ times) in
      (given * one ≤ burst * one + (now - first) * rps) × (b.tokens ≤ burst * one)
run_takes_bound rps burst first now times a =
    let v = run_takes-IsWithin rps burst first now times a in (omega (arith, v.paid), v.capped)
