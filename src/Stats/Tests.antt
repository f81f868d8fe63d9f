-- ===== src/Stats/Tests.antt =====
-- Examples for the metrics.
use revproxy.Prelude.{◌≡◌, List, [], ◌∷◌, some, pos, codes, arith, length, take}
use Prim.Native.Nat.{min}
use revproxy.Samples.{a_log}
use revproxy.Stats.{new, logs, clamp_limit, new_ring, series}
use revproxy.Stats.Recent.{LogCall, pushed, cleared, run_ring, since_clear, logs-run_ring}
use revproxy.Stats.LastMinute.{run_window, newest_of, counts_from, series-run_window}
use revproxy.Stats.Counters.{Summarises, of_route, stat_of, run_ends, run_ends-Summarises}

abbrev log_calls : List LogCall
log_calls = pushed (a_log 502 (codes "down")) ∷ pushed (a_log 200 []) ∷ cleared ∷ []

logs-run_ring_example :
    let kept = min (new_ring (pos 1)).log_cap (length (since_clear log_calls)) in
    logs (run_ring (pos 1) log_calls) (pos 5)
    ≡ some (take (clamp_limit (pos 5) kept) (since_clear log_calls))
logs-run_ring_example = logs-run_ring (pos 1) (pos 5) log_calls

series-run_window_example :
    let now = newest_of 100 (161 ∷ 103 ∷ 103 ∷ []) in
    series (run_window 100 (161 ∷ 103 ∷ 103 ∷ [])) now ≡ counts_from (161 ∷ 103 ∷ 103 ∷ []) now 60
series-run_window_example =
    series-run_window 100 (161 ∷ 103 ∷ 103 ∷ []) (omega arith)
      (omega arith, (omega arith, (omega arith, tt))) (omega arith)

run_ends-Summarises_example :
    Summarises (of_route (codes "rt_1") (a_log 502 (codes "down") ∷ a_log 200 [] ∷ [])) (
      stat_of
        (codes "rt_1")
        (run_ends (new (pos 10) [] 100) (a_log 502 (codes "down") ∷ a_log 200 [] ∷ [])))
run_ends-Summarises_example =
    run_ends-Summarises (pos 10) [] 100 (a_log 502 (codes "down") ∷ a_log 200 [] ∷ [])
      (codes "rt_1")
