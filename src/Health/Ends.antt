-- ===== src/Health/Ends.antt =====
-- How the goroutines of the health checker end, `Stop` of internal/proxy/upstream.go.
use revproxy.Prelude.{
  ℕ, ◌+◌, ◌*◌, ◌≡◌, ◌≢◌, ◌⊎◌, inl, inr, refl, sym, ap, subst, true, List, [], ◌∷◌, ◌++◌, none,
  arith, Bool-cases,
}
use revproxy.Pool.{has_key}
use revproxy.Reload.{HealthTarget}
use revproxy.Health.Workers.{
  Phase, pending, checking, waiting, Task, Checker, new_checker, enlist, Turn, launch, end_check,
  tick, Step, publish, begin_reset, end_reset, turn, leave, halt, Run, here, followed,
}

-- The channel of a goroutine is the one in force or has been closed.
abbrev IsKnown : ℕ → List ℕ → Task → Type 0
IsKnown c closed w = (w.signal ≡ c) ⊎ (has_key w.signal closed ≡ true)

abbrev All : (Task → Type 0) → List Task → Type 0
All P [] = Unit {0}
All P (w ∷ ws) = P w × All P ws

All-append : (P : Task → Type 0) (l r : List Task) → All P l → All P r → All P (l ++ r)
All-append P [] r h k = k
All-append P (w ∷ l) r h k = (h.0, All-append P l r h.1 k)

All-map : (P Q : Task → Type 0) (l : List Task) → ((w : Task) → P w → Q w) → All P l → All Q l
All-map P Q [] f h = tt
All-map P Q (w ∷ l) f h = (f w h.0, All-map P Q l f h.1)

-- A goroutine in the middle that is changed or taken out.
All-change :
    (P : Task → Type 0) (l r : List Task) (w v : Task)
    → (P w → P v)
    → All P (l ++ w ∷ r)
    → All P (l ++ v ∷ r)
All-change P [] r w v f h = (f h.0, h.1)
All-change P (x ∷ l) r w v f h = (h.0, All-change P l r w v f h.1)

All-remove : (P : Task → Type 0) (l r : List Task) (w : Task) → All P (l ++ w ∷ r) → All P (l ++ r)
All-remove P [] r w h = h.1
All-remove P (x ∷ l) r w h = (h.0, All-remove P l r w h.1)

All-enlist :
    (c : ℕ) (closed : List ℕ) (ts : List HealthTarget) → All (IsKnown c closed) (enlist c ts)
unfolding enlist
All-enlist c closed [] = tt
All-enlist c closed (t ∷ ts) = elim (Bool-cases t.cfg.enabled) [
  | inl e ↦ rw e (inl refl, All-enlist c closed ts)
  | inr e ↦ rw e (All-enlist c closed ts)
]

-- In a `Reset` that waits the channel in force is closed.
abbrev IsHeld : Checker → Type 0
IsHeld s = s.resetting ≢ none → has_key s.stop s.closed ≡ true

record IsSound (s : Checker) : Type 0 where
  known : All (IsKnown s.stop s.closed) s.tasks
  held : IsHeld s

closing : (c : ℕ) (closed : List ℕ) (w : Task) → IsKnown c closed w → IsKnown c (c ∷ closed) w
unfolding has_key
closing c closed w (inl e) = inl e
closing c closed w (inr e) = inr (ground arith)

-- All channels are closed.
abbrev pub IsStopped : List ℕ → Task → Type 0
IsStopped closed w = has_key w.signal closed ≡ true

stopped :
    (c : ℕ) (closed : List ℕ) (w : Task)
    → has_key c closed ≡ true
    → IsKnown c closed w
    → IsStopped closed w
stopped c closed w h (inl e) = rw e h
stopped c closed w h (inr e) = e

step-IsSound : {s t : Checker} → Step s t → IsSound s → IsSound t
unfolding has_key
step-IsSound (publish s ts) v = record { known = v.known; held = v.held }
step-IsSound (begin_reset s l r ts c e) v = record {
  known = All-map _ _ s.tasks (closing s.stop s.closed) v.known;
  held = λ _. ground arith;
}
step-IsSound (end_reset s ts e n) v = record {
  known =
      All-append _ s.tasks (enlist s.fresh ts)
        (All-map _ _ s.tasks (λ w k. inr (stopped s.stop s.closed w (v.held (λ f. cc)) k)) v.known)
        (All-enlist s.fresh s.closed ts);
  held = λ f. absurd (f refl);
}
step-IsSound (turn s l r w p e st) v = record {
  known =
      All-change _ l r w (record w { phase = p }) (λ k. k)
        (subst (All (IsKnown s.stop s.closed)) e v.known);
  held = v.held;
}
step-IsSound (leave s l r w e p c) v = record {
  known = All-remove _ l r w (subst (All (IsKnown s.stop s.closed)) e v.known);
  held = v.held;
}
step-IsSound (halt s e) v = record {
  known = All-map _ _ s.tasks (closing s.stop s.closed) v.known;
  held = λ f. absurd (f e);
}

Run-IsSound : {s : Checker} → Run new_checker s → IsSound s
Run-IsSound here = record { known = tt; held = λ f. absurd (f refl) }
Run-IsSound (followed r st) = step-IsSound st (Run-IsSound r)

-- The steps of the goroutines, and the ticks among them.
abbrev pub IsWork : {s t : Checker} → Step s t → Type 0
IsWork (turn s l r w p e st) = Unit {0}
IsWork (leave s l r w e p c) = Unit {0}
IsWork (publish s ts) = ⊥
IsWork (begin_reset s l r ts c e) = ⊥
IsWork (end_reset s ts e n) = ⊥
IsWork (halt s e) = ⊥

abbrev turn_ticks : {p q : Phase} → Turn p q → ℕ
turn_ticks launch = 0
turn_ticks end_check = 0
turn_ticks tick = 1

abbrev pub ticks : {s t : Checker} → Step s t → ℕ
ticks (turn s l r w p e st) = turn_ticks st
ticks _ = 0

pub data Work (s : Checker) : Checker → Type 0 where
  rest : Work s s
  more : {t u : Checker} → Work s t → (st : Step t u) → IsWork st → Work s u

abbrev pub steps_of : {s t : Checker} → Work s t → ℕ
steps_of rest = 0
steps_of (more r st w) = steps_of r + 1

abbrev pub ticks_of : {s t : Checker} → Work s t → ℕ
ticks_of rest = 0
ticks_of (more r st w) = ticks_of r + ticks st

-- The steps to the end of a goroutine that is told to stop.
abbrev pub left : Phase → ℕ
left pending = 3
left checking = 2
left waiting = 1

abbrev pub all_left : List Task → ℕ
all_left [] = 0
all_left (w ∷ ws) = left w.phase + all_left ws

Turn-left : {p q : Phase} (st : Turn p q) → left q + 1 ≡ left p + 2 * turn_ticks st
Turn-left launch = refl
Turn-left end_check = refl
Turn-left tick = refl

all_left-change :
    (l r : List Task) (w v : Task)
    → all_left (l ++ v ∷ r) + left w.phase ≡ all_left (l ++ w ∷ r) + left v.phase
all_left-change [] r w v = omega arith
all_left-change (x ∷ l) r w v = omega (arith, all_left-change l r w v)

all_left-remove :
    (l r : List Task) (w : Task) → all_left (l ++ r) + left w.phase ≡ all_left (l ++ w ∷ r)
all_left-remove [] r w = omega arith
all_left-remove (x ∷ l) r w = omega (arith, all_left-remove l r w)

step-left :
    {s t : Checker} (st : Step s t)
    → IsWork st
    → all_left t.tasks + 1 ≡ all_left s.tasks + 2 * ticks st
step-left (turn s l r w p e st) h =
    omega (arith, ap all_left e, Turn-left st, all_left-change l r w (record w { phase = p }))
step-left (leave s l r w e p c) h = omega (arith, ap all_left e, ap left p, all_left-remove l r w)
step-left (publish s ts) h = absurd h
step-left (begin_reset s l r ts c e) h = absurd h
step-left (end_reset s ts e n) h = absurd h
step-left (halt s e) h = absurd h

Work-left :
    {s t : Checker} (r : Work s t)
    → steps_of r + all_left t.tasks ≡ all_left s.tasks + 2 * ticks_of r
Work-left rest = omega arith
Work-left (more r st w) = omega (arith, Work-left r, step-left st w)

AllStopped-step :
    {s t : Checker} (st : Step s t)
    → IsWork st
    → All (IsStopped s.closed) s.tasks
    → All (IsStopped t.closed) t.tasks
AllStopped-step (turn s l r w p e st) h k =
    All-change _ l r w (record w { phase = p }) (λ k. k) (subst (All (IsStopped s.closed)) e k)
AllStopped-step (leave s l r w e p c) h k =
    All-remove _ l r w (subst (All (IsStopped s.closed)) e k)
AllStopped-step (publish s ts) h k = absurd h
AllStopped-step (begin_reset s l r ts c e) h k = absurd h
AllStopped-step (end_reset s ts e n) h k = absurd h
AllStopped-step (halt s e) h k = absurd h

AllStopped-Work :
    {s t : Checker} → Work s t → All (IsStopped s.closed) s.tasks → All (IsStopped t.closed) t.tasks
AllStopped-Work rest k = k
AllStopped-Work (more r st w) k = AllStopped-step st w (AllStopped-Work r k)

-- A step that is no tick.
abbrev pub CanEnd : Checker → Type 0
CanEnd s = (t : Checker) × ((st : Step s t) × (IsWork st × (ticks st ≡ 0)))

can_end :
    (s : Checker) (ws : List Task)
    → s.tasks ≡ ws
    → All (IsStopped s.closed) ws
    → (ws ≡ []) ⊎ CanEnd s
can_end s [] e k = inl refl
can_end s (w ∷ ws) e k = inr (go w.phase refl)
  where
    go : (p : Phase) → w.phase ≡ p → CanEnd s
    go pending f = (
      _,
      (
        turn s [] ws w checking e (subst (λ (q : Phase). Turn q checking) (sym f) launch),
        (tt, refl),
      ),
    )
    go checking f = (
      _,
      (
        turn s [] ws w waiting e (subst (λ (q : Phase). Turn q waiting) (sym f) end_check),
        (tt, refl),
      ),
    )
    go waiting f = (_, (leave s [] ws w e f k.0, (tt, refl)))

-- When `Stop` closes the channel, in any reachable state with no `Reset` under way: the steps that
-- the goroutines have taken since, and those that are left, are those that were left to them then
-- (three for a goroutine not yet started, two for one in its check, one for one that waits)
-- and two more for each tick that wins over the closed channel; and as long as a goroutine is left,
-- one of them can take a step that is no tick.
pub halt-ends :
    {s t : Checker}
    → Run new_checker s
    → s.resetting ≡ none
    → (w : Work (record s { closed = s.stop ∷ s.closed }) t)
    → (steps_of w + all_left t.tasks ≡ all_left s.tasks + 2 * ticks_of w)
      × ((t.tasks ≡ []) ⊎ CanEnd t)
unfolding has_key
halt-ends {s} {t} r e w =
    let sound = Run-IsSound (followed r (halt s e)) in
    let all_stopped =
      All-map _ _ s.tasks (λ v k. stopped s.stop (s.stop ∷ s.closed) v (ground arith) k)
        sound.known in
    (Work-left w, can_end t t.tasks refl (AllStopped-Work w all_stopped))
