-- ===== src/Health/Overlap.antt =====
-- Two calls of `Engine.Reload` at once, internal/proxy/engine.go: the routes are published under one
-- lock, and the targets of the health checker are replaced later under another one.
use revproxy.Prelude.{
  ℕ, ◌≡◌, refl, sym, ap, subst, true, List, [], ◌∷◌, ◌++◌, map, none, some, arith,
}
use mathlib.Core.List.{append_assoc}
use revproxy.Pool.{has_key}
use revproxy.Reload.{HealthTarget}
use revproxy.Health.Workers.{
  Phase, pending, checking, waiting, Task, Checker, new_checker, enabled, enlist, Turn, launch,
  end_check, NoneRunning, publish, begin_reset, end_reset, turn, leave, Run, here, followed,
}
use revproxy.Health.Current.{targets, NonePending, IsIdle, targets-enlist}

NoneRunning-enlist : (c : ℕ) (ts : List HealthTarget) → NoneRunning (enlist c ts)
unfolding enlist
NoneRunning-enlist c [] = tt
NoneRunning-enlist c (t ∷ ts) = ground (arith, NoneRunning-enlist c ts)

-- Goroutines that are started and told to stop.
abbrev AreStopped : List ℕ → List Task → Type 0
AreStopped closed [] = Unit {0}
AreStopped closed (w ∷ ws) =
    ((w.phase ≡ pending) × (has_key w.signal closed ≡ true)) × AreStopped closed ws

AreStopped-enlist :
    (c : ℕ) (closed : List ℕ) (ts : List HealthTarget)
    → has_key c closed ≡ true
    → AreStopped closed (enlist c ts)
unfolding enlist
AreStopped-enlist c closed [] h = tt
AreStopped-enlist c closed (t ∷ ts) h = ground (arith, AreStopped-enlist c closed ts h)

abbrev with_tasks : Checker → List Task → Checker
with_tasks s ws = record s { tasks = ws }

abbrev in_phase : Phase → Task → Task
in_phase p w = record w { phase = p }

-- Such goroutines check once and are gone.
clear_out :
    (s₀ s : Checker) (ws r : List Task)
    → AreStopped s.closed ws
    → Run s₀ (with_tasks s (ws ++ r))
    → Run s₀ (with_tasks s r)
clear_out s₀ s [] r h run = run
clear_out s₀ s (w ∷ ws) r ((p, c), hs) run =
    let one = followed run (
      turn (with_tasks s (w ∷ ws ++ r)) [] (ws ++ r) w checking refl
        (subst (λ (q : Phase). Turn q checking) (sym p) launch)) in
    let two = followed one (
      turn (with_tasks s (in_phase checking w ∷ (ws ++ r))) [] (ws ++ r) (in_phase checking w)
        waiting refl end_check) in
    clear_out s₀ s ws r hs (
      followed two (
        leave (with_tasks s (in_phase waiting w ∷ (ws ++ r))) [] (ws ++ r) (in_phase waiting w) refl
          refl c))

-- The others are started.
launch_all :
    (s₀ s : Checker) (l ws : List Task)
    → NoneRunning ws
    → Run s₀ (with_tasks s (l ++ ws))
    → Run s₀ (with_tasks s (l ++ map (in_phase checking) ws))
launch_all s₀ s l [] h run = run
launch_all s₀ s l (w ∷ ws) (p, hs) run =
    let w' = in_phase checking w in
    let one = followed run (
      turn (with_tasks s (l ++ w ∷ ws)) l ws w checking refl
        (subst (λ (q : Phase). Turn q checking) (sym p) launch)) in
    let go = launch_all s₀ s (l ++ w' ∷ []) ws hs (
      subst (λ (v : List Task). Run s₀ (with_tasks s v)) (sym (append_assoc l (w' ∷ []) ws)) one) in
    subst (λ (v : List Task). Run s₀ (with_tasks s v))
      (append_assoc l (w' ∷ []) (map (in_phase checking) ws)) go

targets-started : (ws : List Task) → targets (map (in_phase checking) ws) ≡ targets ws
targets-started [] = refl
targets-started (w ∷ ws) = ap (λ (ts : List HealthTarget). w.target ∷ ts) (targets-started ws)

NonePending-started : (ws : List Task) → NonePending (map (in_phase checking) ws)
NonePending-started [] = tt
NonePending-started (w ∷ ws) = (λ e. cc, NonePending-started ws)

-- The last `Reset` was that of the call which published first.
abbrev crossed : List HealthTarget → List HealthTarget → List Task → Checker
crossed a b ws = record {
  published = b;
  calls = [];
  resetting = none;
  stop = 2;
  closed = 1 ∷ 0 ∷ [];
  fresh = 3;
  tasks = ws;
}

crossing : (a b : List HealthTarget) → Run new_checker (crossed a b (enlist 1 b ++ enlist 2 a))
crossing a b =
    let s1 : Checker = record new_checker { published = a; calls = a ∷ [] } in
    let s2 : Checker = record s1 { published = b; calls = b ∷ a ∷ [] } in
    let s3 : Checker = record s2 { calls = a ∷ []; resetting = some b; closed = 0 ∷ [] } in
    let s4 : Checker = record s3 { resetting = none; stop = 1; fresh = 2; tasks = enlist 1 b } in
    let s5 : Checker = record s4 { calls = []; resetting = some a; closed = 1 ∷ 0 ∷ [] } in
    let r1 : Run new_checker s1 = followed here (publish new_checker a) in
    let r2 : Run new_checker s2 = followed r1 (publish s1 b) in
    let r3 : Run new_checker s3 = followed r2 (begin_reset s2 [] (a ∷ []) b refl refl) in
    let r4 : Run new_checker s4 = followed r3 (end_reset s3 b refl tt) in
    let r5 : Run new_checker s5 = followed r4 (begin_reset s4 [] [] a refl refl) in
    followed r5 (end_reset s5 a refl (NoneRunning-enlist 1 b))

-- The bug in `Engine.Reload`: two calls at once, by the administration API and by the subscriber,
-- say, can cross between publishing and `Reset`. For any targets of the two, there is a run
-- of both calls to their ends after which the routes of one are published, and the health
-- checker has one goroutine for each target of the other that is switched on, and no other goroutine.
pub crossed-targets :
    (a b : List HealthTarget)
    → (s : Checker) × Run new_checker s
      × IsIdle s
      × (s.published ≡ b)
      × (targets s.tasks ≡ enabled a)
unfolding has_key
crossed-targets a b =
    let started = map (in_phase checking) (enlist 2 a) in
    let gone =
      clear_out new_checker (crossed a b []) (enlist 1 b) (enlist 2 a)
        (AreStopped-enlist 1 (1 ∷ 0 ∷ []) b refl) (crossing a b) in
    (
      crossed a b started,
      launch_all new_checker (crossed a b []) [] (enlist 2 a) (NoneRunning-enlist 2 a) gone,
      (refl, (refl, NonePending-started (enlist 2 a))),
      refl,
      rw (targets-started (enlist 2 a)) (targets-enlist 2 a),
    )
