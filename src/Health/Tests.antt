-- ===== src/Health/Tests.antt =====
-- Examples for the health checker.
use revproxy.Prelude.{
  ℕ, Bool, [], ◌∷◌, ◌*◌, ◌≡◌, ◌⊎◌, inr, refl, arith, true, false, ℤ, pos, ltb, some, get_elem?,
  Bytes, bytes_eq, none, ◌+◌, codes,
}
use revproxy.Reload.{HealthTarget}
use revproxy.Health.Workers.{
  pending, checking, Task, Checker, new_checker, enabled, enlist, launch, Step, publish,
  begin_reset, end_reset, turn, Run, here, followed,
}
use revproxy.Health.Current.{targets, IsIdle, start, after, ListenTo, orderly-targets}
use revproxy.Health.Overlap.{crossed-targets}
use revproxy.Health.Ends.{rest, more, all_left, CanEnd, halt-ends}
use revproxy.Samples.{a_pool, a_health, node}
use revproxy.Backend.{Url, Backend}
use revproxy.Pool.{has_key}
use revproxy.Health.{checks, good_status}
use revproxy.Health.Rounds.{checks-down}

abbrev takes_all : Url → Bool
takes_all u = true

abbrev unavailable : ℕ → Url → Bytes ⊎ ℤ
unavailable i u = inr (pos 503)

abbrev clock : ℕ → ℕ
clock i = i * 10

checks-down_example :
    (a : Backend) × ((get_elem? (checks takes_all unavailable clock a_health 2 a_pool).backends 0
        ≡ some a)
      × (a.alive ≡ ltb 2 2))
unfolding bytes_eq good_status
checks-down_example =
    checks-down takes_all unavailable clock a_health 2 0 a_pool (node 1 3) refl
      (record { outside = refl; fits = refl }) (λ i u. refl) refl refl (omega arith)

abbrev a_target : HealthTarget
a_target = record {
  handler = 1;
  route_id = codes "rt_1";
  route = codes "api";
  cfg = a_health;
  insecure = false;
}

abbrev a_task : Task
a_task = record { signal = 1; target = a_target; phase = pending }

abbrev published : Checker
published = record new_checker { published = a_target ∷ []; calls = (a_target ∷ []) ∷ [] }

abbrev in_reset : Checker
in_reset = record published { calls = []; resetting = some (a_target ∷ []); closed = 0 ∷ [] }

abbrev after_reset : Checker
after_reset = record in_reset { resetting = none; stop = 1; fresh = 2; tasks = a_task ∷ [] }

abbrev launched : Checker
launched = record after_reset { tasks = record a_task { phase = checking } ∷ [] }

abbrev reset_ended : Step in_reset after_reset
unfolding enlist
reset_ended = end_reset in_reset (a_target ∷ []) refl tt

orderly-targets_example :
    (targets launched.tasks ≡ enabled launched.published)
    × (ListenTo launched.stop launched.tasks × (has_key launched.stop launched.closed ≡ false))
unfolding enlist
orderly-targets_example =
    orderly-targets
      (after
        (after
          (after (after start (publish new_checker (a_target ∷ [])) (refl, (refl, tt)))
            (begin_reset published [] [] (a_target ∷ []) refl refl) tt)
          reset_ended tt)
        (turn after_reset [] [] a_task checking refl launch) tt)
      (refl, (refl, (λ e. cc, tt)))

crossed-targets_example :
    (s : Checker) × Run new_checker s
    × IsIdle s
    × (s.published ≡ [])
    × (targets s.tasks ≡ enabled (a_target ∷ []))
crossed-targets_example = crossed-targets (a_target ∷ []) []

-- One check is begun after `Stop`.
abbrev last_check : Checker
last_check = record after_reset {
  closed = 1 ∷ 0 ∷ [];
  tasks = record a_task { phase = checking } ∷ [];
}

halt-ends_example :
    (1 + all_left last_check.tasks ≡ all_left after_reset.tasks + 2 * 0)
    × ((last_check.tasks ≡ []) ⊎ CanEnd last_check)
unfolding enlist
halt-ends_example =
    halt-ends
      (followed
        (followed (followed here (publish new_checker (a_target ∷ [])))
          (begin_reset published [] [] (a_target ∷ []) refl refl))
        reset_ended)
      refl
      (more rest
        (turn (record after_reset { closed = 1 ∷ 0 ∷ [] }) [] [] a_task checking refl launch) tt)
