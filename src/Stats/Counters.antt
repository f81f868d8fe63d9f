-- ===== src/Stats/Counters.antt =====
-- The counters of each route in internal/stats/stats.go.
use Prim.Native.Nat.{max}
use revproxy.Prelude.{
  length, ltb, leb, ◌&&◌, Bool-cases, inl, inr, ℕ, ◌+◌, ◌%◌, ◌^◌, ◌<◌, ◌≡◌, refl, Bool, List, [],
  ◌∷◌, some, arith, if◌then◌else◌, ℤ, pos, add64, sub64, sub_ℕ, Bytes, bytes_eq, bytes_eq_iff,
}
use revproxy.Stats.{
  AccessLog, RouteStat, Collector, new, update_stat, or_fresh, lookup_stat, insert_stat,
  begin_request, end_request,
}

pub lookup_stat-insert_stat :
    (id j : Bytes) (rs : RouteStat) (m : List (Bytes × RouteStat))
    → lookup_stat j (insert_stat id rs m) ≡ (if bytes_eq id j then some rs else lookup_stat j m)
unfolding lookup_stat insert_stat
lookup_stat-insert_stat id j rs [] = refl
lookup_stat-insert_stat id j rs ((k, r) ∷ m) = ground (
  arith,
  bytes_eq_iff id j,
  bytes_eq_iff k id,
  bytes_eq_iff k j,
  lookup_stat-insert_stat id j rs m,
)

-- The entries of one route, newest first.
pub of_route : Bytes → List AccessLog → List AccessLog
of_route id [] = []
of_route id (l ∷ ls) =
    let rest = of_route id ls in if bytes_eq l.route_id id then l ∷ rest else rest

pub count_if : (ℕ → Bool) → List AccessLog → ℕ
count_if p [] = 0
count_if p (l ∷ ls) = let rest = count_if p ls in if p l.status then rest + 1 else rest

pub sum_of : (AccessLog → ℕ) → List AccessLog → ℕ
sum_of f [] = 0
sum_of f (l ∷ ls) = sum_of f ls + f l

pub max_of : (AccessLog → ℕ) → List AccessLog → ℕ
max_of f [] = 0
max_of f (l ∷ ls) = max (max_of f ls) (f l)

-- The counters of one route against the entries that were logged for it, in `uint64` arithmetic.
pub record Summarises (ls : List AccessLog) (rs : RouteStat) : Type 0 where
  pub requests : rs.requests ≡ length ls % 2 ^ 64
  pub status_2xx : rs.status_2xx ≡ count_if (λ s. ltb s 300) ls % 2 ^ 64
  pub status_3xx : rs.status_3xx ≡ count_if (λ s. leb 300 s && ltb s 400) ls % 2 ^ 64
  pub status_4xx : rs.status_4xx ≡ count_if (λ s. leb 400 s && ltb s 500) ls % 2 ^ 64
  pub status_5xx : rs.status_5xx ≡ count_if (λ s. leb 500 s) ls % 2 ^ 64
  pub bytes_out : rs.bytes_out ≡ sum_of (λ l. l.bytes_out) ls % 2 ^ 64
  pub total_dur : rs.total_dur ≡ sum_of (λ l. l.duration) ls % 2 ^ 64
  pub max_dur : rs.max_dur ≡ max_of (λ l. l.duration) ls

update_stat-Summarises :
    (l : AccessLog) (active : ℤ) (ls : List AccessLog) (rs : RouteStat)
    → Summarises ls rs
    → Summarises (l ∷ ls) (update_stat l active rs)
unfolding update_stat count_if sum_of max_of
update_stat-Summarises l active ls rs h = record {
  requests = ground arith;
  status_2xx = ground arith;
  status_3xx = ground arith;
  status_4xx = ground arith;
  status_5xx = ground arith;
  bytes_out = ground arith;
  total_dur = ground arith;
  max_dur = ground arith;
}

-- The collector after the requests that ended, newest first.
pub run_ends : Collector → List AccessLog → Collector
run_ends c [] = c
run_ends c (l ∷ ls) = end_request (run_ends c ls) l

pub stat_of : Bytes → Collector → RouteStat
stat_of id c = or_fresh (lookup_stat id c.routes)

stat_of-end_request :
    (id : Bytes) (c : Collector) (l : AccessLog)
    → stat_of id (end_request c l) ≡ (
        if bytes_eq l.route_id id
        then update_stat l (sub64 c.active (pos 1)) (stat_of id c)
        else stat_of id c)
unfolding stat_of end_request
stat_of-end_request id c l =
    let found =
      lookup_stat-insert_stat l.route_id id
        (update_stat l (sub64 c.active (pos 1)) (or_fresh (lookup_stat l.route_id c.routes)))
        c.routes in
    ground (arith, found, bytes_eq_iff l.route_id id)

new-Summarises :
    (capacity : ℤ) (path : Bytes) (now : ℕ) (id : Bytes)
    → Summarises [] (stat_of id (new capacity path now))
unfolding stat_of new lookup_stat or_fresh count_if sum_of max_of
new-Summarises capacity path now id = omega arith

-- From a new collector on, the counters of every route are those of the entries that were logged
-- for it and of no other: requests, status classes, bytes and durations modulo 2 ^ 64, and the
-- longest duration.
pub run_ends-Summarises :
    (capacity : ℤ) (path : Bytes) (now : ℕ) (ls : List AccessLog) (id : Bytes)
    → Summarises (of_route id ls) (stat_of id (run_ends (new capacity path now) ls))
unfolding run_ends of_route
run_ends-Summarises capacity path now [] id = new-Summarises capacity path now id
run_ends-Summarises capacity path now (l ∷ ls) id =
    let c = run_ends (new capacity path now) ls in
    let ih = run_ends-Summarises capacity path now ls id in
    elim (Bool-cases (bytes_eq l.route_id id)) [
      | inl t ↦ rw (stat_of-end_request id c l, t) (update_stat-Summarises l _ _ _ ih)
      | inr t ↦ rw (stat_of-end_request id c l, t) ih
    ]

-- The calls of one collector.
pub data Call : Type 0 where
  begins : ℕ → Call
  ends : AccessLog → Call

pub run_calls : Collector → List Call → Collector
run_calls c [] = c
run_calls c (begins sec ∷ calls) = begin_request (run_calls c calls) sec
run_calls c (ends l ∷ calls) = end_request (run_calls c calls) l

pub begun : List Call → ℕ
begun [] = 0
begun (begins _ ∷ calls) = begun calls + 1
begun (ends _ ∷ calls) = begun calls

pub ended : List Call → ℕ
ended [] = 0
ended (begins _ ∷ calls) = ended calls
ended (ends _ ∷ calls) = ended calls + 1

begun-ended : (calls : List Call) → begun calls + ended calls ≡ length calls
unfolding begun ended
begun-ended [] = omega arith
begun-ended (begins _ ∷ calls) = omega (arith, begun-ended calls)
begun-ended (ends _ ∷ calls) = omega (arith, begun-ended calls)

add64_one : (a b : ℕ) → a + b < 2 ^ 62 → add64 (sub_ℕ a b) (pos 1) ≡ sub_ℕ (a + 1) b
unfolding add64
add64_one a b h = ground arith

sub64_one : (a b : ℕ) → a + b < 2 ^ 62 → sub64 (sub_ℕ a b) (pos 1) ≡ sub_ℕ a (b + 1)
unfolding sub64
sub64_one a b h = ground arith

-- After any sequence of fewer than 2 ^ 62 calls on a new collector, the gauge of active requests is
-- the number that began less the number that ended, and the total is the number that began.
pub active-run_calls :
    (capacity : ℤ) (path : Bytes) (now : ℕ) (calls : List Call)
    → length calls < 2 ^ 62
    → let c = run_calls (new capacity path now) calls in
      (c.active ≡ sub_ℕ (begun calls) (ended calls)) × (c.total ≡ begun calls)
unfolding run_calls new begun ended begin_request end_request
active-run_calls capacity path now [] h = (refl, refl)
active-run_calls capacity path now (begins sec ∷ calls) h =
    let ih = active-run_calls capacity path now calls (omega arith) in
    (
      rw ih.0 (add64_one _ _ (omega (arith, begun-ended calls))),
      omega (arith, ih.1, begun-ended calls),
    )
active-run_calls capacity path now (ends l ∷ calls) h =
    let ih = active-run_calls capacity path now calls (omega arith) in
    (rw ih.0 (sub64_one _ _ (omega (arith, begun-ended calls))), ih.1)
