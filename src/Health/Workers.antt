-- ===== src/Health/Workers.antt =====
-- The goroutines of the health checker, `Reset` and `Stop` of internal/proxy/upstream.go, with the
-- two halves of `Engine.Reload` of internal/proxy/engine.go that are not under one lock: new
-- routes are published, and later their targets are handed to `Reset`. What a check does is in Health.
-- A channel `stop` is a number.
use revproxy.Prelude.{ℕ, suc, ◌≡◌, true, List, [], ◌∷◌, ◌++◌, Option, none, some, if◌then◌else◌}
use revproxy.Pool.{has_key}
use revproxy.Reload.{HealthTarget}

-- Before its start, in `check`, or in the `select`.
pub data Phase : Type 0 where
  pending checking waiting : Phase

-- A goroutine, with the channel that tells it to stop.
pub record Task : Type 0 where
  pub signal : ℕ
  pub target : HealthTarget
  pub phase : Phase

-- `calls` are the targets of calls of `Engine.Reload` that have published their routes and not yet
-- entered `Reset`; `resetting` are those of a `Reset` that waits, with the lock held.
pub record Checker : Type 0 where
  pub published : List HealthTarget
  pub calls : List (List HealthTarget)
  pub resetting : Option (List HealthTarget)
  pub stop : ℕ
  pub closed : List ℕ
  pub fresh : ℕ
  pub tasks : List Task

-- NewHealthChecker
abbrev pub new_checker : Checker
new_checker = record {
  published = [];
  calls = [];
  resetting = none;
  stop = 0;
  closed = [];
  fresh = 1;
  tasks = [];
}

-- The targets that are switched on.
unfoldable pub enabled : List HealthTarget → List HealthTarget
enabled [] = []
enabled (t ∷ ts) = let rest = enabled ts in if t.cfg.enabled then t ∷ rest else rest

-- The goroutines that the loop of `Reset` is to start.
unfoldable pub enlist : ℕ → List HealthTarget → List Task
enlist channel [] = []
enlist channel (t ∷ ts) =
    let rest = enlist channel ts in
    if t.cfg.enabled then record { signal = channel; target = t; phase = pending } ∷ rest else rest

-- The first check begins, a check ends, and the ticker begins the next one. The ticker may win
-- over a closed channel, since `select` takes any case that is ready.
pub data Turn : Phase → Phase → Type 0 where
  launch : Turn pending checking
  end_check : Turn checking waiting
  tick : Turn waiting checking

-- `wg` counts the goroutines that have been started.
abbrev pub NoneRunning : List Task → Type 0
NoneRunning [] = Unit {0}
NoneRunning (w ∷ ws) = (w.phase ≡ pending) × NoneRunning ws

pub data Step : Checker → Checker → Type 0 where
  -- Reload: `e.routes = handlers`.
  publish :
      (s : Checker) (ts : List HealthTarget)
      → Step s (record s { published = ts; calls = ts ∷ s.calls })
  -- Reset: the lock is taken and the channel closed, if it is not closed already.
  begin_reset :
      (s : Checker) (l r : List (List HealthTarget)) (ts : List HealthTarget)
      → s.calls ≡ l ++ ts ∷ r
      → s.resetting ≡ none
      → Step s (record s { calls = l ++ r; resetting = some ts; closed = s.stop ∷ s.closed })
  -- `wg.Wait` returns, there is a new channel and the lock is released.
  end_reset :
      (s : Checker) (ts : List HealthTarget)
      → s.resetting ≡ some ts
      → NoneRunning s.tasks
      → Step s (record s {
        resetting = none;
        stop = s.fresh;
        fresh = suc s.fresh;
        tasks = s.tasks ++ enlist s.fresh ts;
      })
  -- A goroutine goes on.
  turn :
      (s : Checker) (l r : List Task) (w : Task) (p : Phase)
      → s.tasks ≡ l ++ w ∷ r
      → Turn w.phase p
      → Step s (record s { tasks = l ++ record w { phase = p } ∷ r })
  -- A goroutine that waits finds its channel closed.
  leave :
      (s : Checker) (l r : List Task) (w : Task)
      → s.tasks ≡ l ++ w ∷ r
      → w.phase ≡ waiting
      → has_key w.signal s.closed ≡ true
      → Step s (record s { tasks = l ++ r })
  -- Stop: the channel is closed.
  halt : (s : Checker) → s.resetting ≡ none → Step s (record s { closed = s.stop ∷ s.closed })

-- Steps one after the other.
pub data Run (s : Checker) : Checker → Type 0 where
  here : Run s s
  followed : {t u : Checker} → Run s t → Step t u → Run s u
