-- ===== src/Limiter/Tests.antt =====
-- An example for the token bucket.
use revproxy.Prelude.{◌+◌, ◌-◌, ◌*◌, ◌≤◌, refl, [], ◌∷◌, arith}
use revproxy.Limiter.{one}
use revproxy.Limiter.Bound.{run_takes, run_takes_bound}

run_takes_bound_example :
    let (b, given) = run_takes 1000000 2 (30 ∷ 20 ∷ 10 ∷ []) in
    (given * one ≤ 2 * one + (30 - 10) * 1000000) × (b.tokens ≤ 2 * one)
run_takes_bound_example =
    run_takes_bound 1000000 2 10 30 (20 ∷ 10 ∷ []) (omega arith, (omega arith, refl))
