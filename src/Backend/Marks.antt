-- ===== src/Backend/Marks.antt =====
-- When the health marks of internal/proxy/upstream.go take a node out and bring it back.
use revproxy.Prelude.{
  ℕ, zero, suc, ◌+◌, ◌^◌, ◌<◌, ◌≡◌, refl, ap, ◌∙◌, true, false, Option, arith, ltb, leb,
  if◌then◌else◌, ℤ, pos, add64, pos_part, Bytes,
}
use revproxy.Backend.{Backend, at_least_one, mark_fail, mark_ok}

pub add64_suc : (n : ℕ) → n < 2 ^ 62 → add64 (pos n) (pos 1) ≡ pos (n + 1)
unfolding add64
add64_suc n h = ground arith

-- n failures in a row
pub fail_times : ℕ → Option Bytes → ℤ → ℕ → Backend → Backend
fail_times zero err threshold now b = b
fail_times (suc n) err threshold now b =
    mark_fail err threshold now (fail_times n err threshold now b)

-- n passed checks in a row
pub ok_times : ℕ → ℤ → Backend → Backend
ok_times zero passes b = b
ok_times (suc n) passes b = mark_ok passes (ok_times n passes b)

fails-fail_times :
    (n : ℕ) (err : Option Bytes) (threshold : ℤ) (now : ℕ) (b : Backend)
    → b.fails ≡ pos 0
    → n < 2 ^ 62
    → (fail_times n err threshold now b).fails ≡ pos n
unfolding fail_times mark_fail
fails-fail_times zero err threshold now b z h = z
fails-fail_times (suc n) err threshold now b z h =
    rw (fails-fail_times n err threshold now b z (omega arith))
      (add64_suc n (omega arith) ∙ ap pos (omega arith))

-- A node that is up with no failures counted goes down with the failure that makes the count reach
-- the threshold, which counts as 1 if it is lower, and with no earlier one.
pub alive-fail_times :
    (n : ℕ) (err : Option Bytes) (threshold : ℤ) (now : ℕ) (b : Backend)
    → b.fails ≡ pos 0
    → b.alive ≡ true
    → n < 2 ^ 62
    → (fail_times n err threshold now b).alive ≡ ltb n (pos_part (at_least_one threshold))
unfolding fail_times mark_fail
alive-fail_times zero err threshold now b z up h = ground arith
alive-fail_times (suc n) err threshold now b z up h = ground (
  arith,
  alive-fail_times n err threshold now b z up,
  fails-fail_times n err threshold now b z,
  add64_suc n,
)

streak-ok_times :
    (n : ℕ) (passes : ℤ) (b : Backend)
    → b.ok_streak ≡ pos 0
    → n < 2 ^ 62
    → (ok_times n passes b).ok_streak ≡ pos n
unfolding ok_times mark_ok
streak-ok_times zero passes b z h = z
streak-ok_times (suc n) passes b z h = ground (arith, streak-ok_times n passes b z, add64_suc n)

ok_times_down :
    (n : ℕ) (passes : ℤ) (b : Backend)
    → b.ok_streak ≡ pos 0
    → b.alive ≡ false
    → n < 2 ^ 62
    → let up = leb (pos_part (at_least_one passes)) n in
      ((ok_times n passes b).alive ≡ up)
      × ((ok_times n passes b).fails ≡ (if up then pos 0 else b.fails))
unfolding ok_times mark_ok
ok_times_down zero passes b z down h = ground arith
ok_times_down (suc n) passes b z down h =
    let ih = ok_times_down n passes b z down (omega arith) in
    let streak = streak-ok_times n passes b z (omega arith) in
    ground (arith, ih.0, ih.1, streak, add64_suc n)

-- A node that a failure took down comes back with the passed check that makes the run of passed
-- checks reach the required number, which counts as 1 if it is lower, and with no earlier one;
-- its failures are forgotten with that check and not before.
pub alive-ok_times :
    (n : ℕ) (err : Option Bytes) (threshold passes : ℤ) (now : ℕ) (b : Backend)
    → (mark_fail err threshold now b).alive ≡ false
    → n < 2 ^ 62
    → let down = mark_fail err threshold now b in
      let up = leb (pos_part (at_least_one passes)) n in
      ((ok_times n passes down).alive ≡ up)
      × ((ok_times n passes down).fails ≡ (if up then pos 0 else down.fails))
unfolding mark_fail
alive-ok_times n err threshold passes now b down h =
    ok_times_down n passes (mark_fail err threshold now b) refl down h
