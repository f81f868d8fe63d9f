-- ===== src/Health/Current.antt =====
-- Which nodes the health checker checks once the calls of `Engine.Reload` are through,
-- internal/proxy/upstream.go and internal/proxy/engine.go.
use revproxy.Prelude.{
  ℕ, suc, ◌<◌, ◌≡◌, ◌≢◌, refl, sym, ap, subst, ◌∙◌, true, false, List, [], ◌∷◌, ◌++◌, map, none,
  some, arith,
}
use revproxy.Pool.{has_key}
use revproxy.Reload.{HealthTarget}
use revproxy.Health.Workers.{
  Phase, pending, Task, Checker, new_checker, enabled, enlist, Turn, launch, end_check, tick,
  NoneRunning, Step, publish, begin_reset, end_reset, turn, leave, halt,
}

abbrev pub targets : List Task → List HealthTarget
targets = map (λ w. w.target)

abbrev pub NonePending : List Task → Type 0
NonePending [] = Unit {0}
NonePending (w ∷ ws) = (w.phase ≢ pending) × NonePending ws

-- No call of `Reload` is under way, and all goroutines have been started.
abbrev pub IsIdle : Checker → Type 0
IsIdle s = (s.calls ≡ []) × ((s.resetting ≡ none) × NonePending s.tasks)

-- A step of one call of `Reload` at a time; the checker is not stopped.
abbrev pub IsAlone : {s t : Checker} → Step s t → Type 0
IsAlone (publish s ts) = IsIdle s
IsAlone (begin_reset s l r ts c e) = Unit {0}
IsAlone (end_reset s ts c e) = Unit {0}
IsAlone (turn s l r w p e st) = Unit {0}
IsAlone (leave s l r w e p c) = Unit {0}
IsAlone (halt s e) = ⊥

pub data Orderly (s : Checker) : Checker → Type 0 where
  start : Orderly s s
  after : {t u : Checker} → Orderly s t → (st : Step t u) → IsAlone st → Orderly s u

pub targets-enlist : (c : ℕ) (ts : List HealthTarget) → targets (enlist c ts) ≡ enabled ts
unfolding enlist enabled
targets-enlist c [] = refl
targets-enlist c (t ∷ ts) = ground (arith, targets-enlist c ts)

-- All goroutines listen to one channel.
abbrev pub ListenTo : ℕ → List Task → Type 0
ListenTo c [] = Unit {0}
ListenTo c (w ∷ ws) = (w.signal ≡ c) × ListenTo c ws

ListenTo-enlist : (c : ℕ) (ts : List HealthTarget) → ListenTo c (enlist c ts)
unfolding enlist
ListenTo-enlist c [] = tt
ListenTo-enlist c (t ∷ ts) = ground (arith, ListenTo-enlist c ts)

empty_of : (ws : List Task) → NoneRunning ws → NonePending ws → ws ≡ []
empty_of [] h k = refl
empty_of (w ∷ ws) h k = absurd (k.0 h.0)

turned : {p q : Phase} → Turn p q → q ≢ pending
turned launch = λ e. cc
turned end_check = λ e. cc
turned tick = λ e. cc

-- What a turn and the end of a goroutine keep.
NonePending-Turn :
    (l r : List Task) (w : Task) (p : Phase)
    → Turn w.phase p
    → NonePending (l ++ w ∷ r)
    → NonePending (l ++ record w { phase = p } ∷ r)
NonePending-Turn [] r w p st h = (turned st, h.1)
NonePending-Turn (v ∷ l) r w p st h = (h.0, NonePending-Turn l r w p st h.1)

NonePending-leave : (l r : List Task) (w : Task) → NonePending (l ++ w ∷ r) → NonePending (l ++ r)
NonePending-leave [] r w h = h.1
NonePending-leave (v ∷ l) r w h = (h.0, NonePending-leave l r w h.1)

targets-turn :
    (l r : List Task) (w : Task) (p : Phase)
    → targets (l ++ record w { phase = p } ∷ r) ≡ targets (l ++ w ∷ r)
targets-turn [] r w p = refl
targets-turn (v ∷ l) r w p = ap (λ (ts : List HealthTarget). v.target ∷ ts) (targets-turn l r w p)

ListenTo-turn :
    (c : ℕ) (l r : List Task) (w : Task) (p : Phase)
    → ListenTo c (l ++ w ∷ r)
    → ListenTo c (l ++ record w { phase = p } ∷ r)
ListenTo-turn c [] r w p h = h
ListenTo-turn c (v ∷ l) r w p h = (h.0, ListenTo-turn c l r w p h.1)

listens : (c : ℕ) (l r : List Task) (w : Task) → ListenTo c (l ++ w ∷ r) → w.signal ≡ c
listens c [] r w h = h.0
listens c (v ∷ l) r w h = listens c l r w h.1

-- All numbers are below `n`.
abbrev Below : ℕ → List ℕ → Type 0
Below n [] = Unit {0}
Below n (k ∷ ks) = (k < n) × Below n ks

Below-suc : (n : ℕ) (ks : List ℕ) → Below n ks → Below (suc n) ks
Below-suc n [] h = tt
Below-suc n (k ∷ ks) h = (omega (arith, h.0), Below-suc n ks h.1)

fresh_open : (n : ℕ) (ks : List ℕ) → Below n ks → has_key n ks ≡ false
unfolding has_key
fresh_open n [] h = refl
fresh_open n (k ∷ ks) h = ground (arith, h.0, fresh_open n ks h.1)

-- Where a call of `Reload` stands: before `Reset`, waiting in it, or through.
data Stage (s : Checker) : Type 0 where
  called : s.calls ≡ s.published ∷ [] → s.resetting ≡ none → NonePending s.tasks → Stage s
  waits : s.calls ≡ [] → s.resetting ≡ some s.published → NonePending s.tasks → Stage s
  through :
      s.calls ≡ []
      → s.resetting ≡ none
      → targets s.tasks ≡ enabled s.published
      → ListenTo s.stop s.tasks
      → has_key s.stop s.closed ≡ false
      → Stage s

record IsOrderly (s : Checker) : Type 0 where
  stage : Stage s
  known : Below s.fresh s.closed
  current : s.stop < s.fresh

only_call : {A : Type 0} (l r : List A) (a b : A) → a ∷ [] ≡ l ++ b ∷ r → (l ++ r ≡ []) × (a ≡ b)
only_call [] [] a b e = (refl, cc)
only_call [] (x ∷ r) a b e = absurd cc
only_call (x ∷ []) r a b e = absurd cc
only_call (x ∷ y ∷ l) r a b e = absurd cc

not_in_none : {A : Type 0} (l r : List A) (a : A) → [] ≢ l ++ a ∷ r
not_in_none [] r a = λ e. cc
not_in_none (x ∷ l) r a = λ e. cc

begin-Stage :
    (s : Checker) (l r : List (List HealthTarget)) (ts : List HealthTarget)
    → s.calls ≡ l ++ ts ∷ r
    → s.resetting ≡ none
    → Stage s
    → Stage (record s { calls = l ++ r; resetting = some ts; closed = s.stop ∷ s.closed })
begin-Stage s l r ts c e (called p q n) =
    let (rest, same) = only_call l r s.published ts (sym p ∙ c) in waits rest (ap some (sym same)) n
begin-Stage s l r ts c e (waits p q n) = absurd cc
begin-Stage s l r ts c e (through p q n k o) = absurd (not_in_none l r ts (sym p ∙ c))

end-Stage :
    (s : Checker) (ts : List HealthTarget)
    → s.resetting ≡ some ts
    → NoneRunning s.tasks
    → Below s.fresh s.closed
    → Stage s
    → Stage (record s {
      resetting = none;
      stop = s.fresh;
      fresh = suc s.fresh;
      tasks = s.tasks ++ enlist s.fresh ts;
    })
end-Stage s ts e n b (called p q k) = absurd cc
end-Stage s ts e n b (waits p q k) =
    let same : s.published ≡ ts = cc in
    through p refl (rw (empty_of s.tasks n k, same) (targets-enlist s.fresh ts))
      (rw (empty_of s.tasks n k) (ListenTo-enlist s.fresh ts)) (fresh_open s.fresh s.closed b)
end-Stage s ts e n b (through p q k l o) = absurd cc

Turn-Stage :
    (s : Checker) (l r : List Task) (w : Task) (p : Phase)
    → s.tasks ≡ l ++ w ∷ r
    → Turn w.phase p
    → Stage s
    → Stage (record s { tasks = l ++ record w { phase = p } ∷ r })
Turn-Stage s l r w p e st (called c q n) =
    called c q (NonePending-Turn l r w p st (subst NonePending e n))
Turn-Stage s l r w p e st (waits c q n) =
    waits c q (NonePending-Turn l r w p st (subst NonePending e n))
Turn-Stage s l r w p e st (through c q n k o) =
    through c q (targets-turn l r w p ∙ sym (ap targets e) ∙ n)
      (ListenTo-turn s.stop l r w p (subst (ListenTo s.stop) e k)) o

leave-Stage :
    (s : Checker) (l r : List Task) (w : Task)
    → s.tasks ≡ l ++ w ∷ r
    → has_key w.signal s.closed ≡ true
    → Stage s
    → Stage (record s { tasks = l ++ r })
leave-Stage s l r w e c (called p q n) =
    called p q (NonePending-leave l r w (subst NonePending e n))
leave-Stage s l r w e c (waits p q n) = waits p q (NonePending-leave l r w (subst NonePending e n))
leave-Stage s l r w e c (through p q n k o) =
    absurd cc (listens s.stop l r w (subst (ListenTo s.stop) e k))

step-IsOrderly : {s t : Checker} (st : Step s t) → IsAlone st → IsOrderly s → IsOrderly t
step-IsOrderly (publish s ts) a v = record {
  stage = called (rw (a.0) refl) (a.1.0) (a.1.1);
  known = v.known;
  current = v.current;
}
step-IsOrderly (begin_reset s l r ts c e) a v = record {
  stage = begin-Stage s l r ts c e v.stage;
  known = (v.current, v.known);
  current = v.current;
}
step-IsOrderly (end_reset s ts e n) a v = record {
  stage = end-Stage s ts e n v.known v.stage;
  known = Below-suc s.fresh s.closed v.known;
  current = omega arith;
}
step-IsOrderly (turn s l r w p e st) a v = record {
  stage = Turn-Stage s l r w p e st v.stage;
  known = v.known;
  current = v.current;
}
step-IsOrderly (leave s l r w e p c) a v = record {
  stage = leave-Stage s l r w e c v.stage;
  known = v.known;
  current = v.current;
}
step-IsOrderly (halt s e) a v = absurd a

Orderly-IsOrderly : {s : Checker} → Orderly new_checker s → IsOrderly s
unfolding has_key enabled
Orderly-IsOrderly start = record {
  stage = through refl refl refl tt refl;
  known = tt;
  current = omega arith;
}
Orderly-IsOrderly (after r st a) = step-IsOrderly st a (Orderly-IsOrderly r)

settled :
    (s : Checker)
    → IsIdle s
    → Stage s
    → (targets s.tasks ≡ enabled s.published)
      × (ListenTo s.stop s.tasks × (has_key s.stop s.closed ≡ false))
settled s i (called p q n) = absurd cc
settled s i (waits p q n) = absurd cc
settled s i (through p q n k o) = (n, (k, o))

-- After calls of `Engine.Reload` of which each begins once the one before has started all its
-- goroutines, with any checks in between: when no call is under way, the health checker has one
-- goroutine for each target of the published routes that is switched on, in their order, and
-- no other; none of them has been told to stop.
pub orderly-targets :
    {s : Checker}
    → Orderly new_checker s
    → IsIdle s
    → (targets s.tasks ≡ enabled s.published)
      × (ListenTo s.stop s.tasks × (has_key s.stop s.closed ≡ false))
orderly-targets {s} r i = settled s i (Orderly-IsOrderly r).stage
