-- ===== src/Sync.antt =====
-- How the engine follows the configuration: the subscriber's loop and `watchConfig` in main.go, next to
-- the administration API. The first channel of the store is that of main.go.
pub mod Steps
pub mod Replies
pub mod Handlers
pub mod Requests
pub mod Settles
mod Tests
use revproxy.Prelude.{
  ℕ, zero, suc, ◌+◌, ◌≤◌, ◌≡◌, ◌≢◌, ◌⊎◌, Bool, true, false, List, [], ◌∷◌, Option, none, some,
  if◌then◌else◌, ltb, length, Bytes,
}
use revproxy.Config.{Config}
use revproxy.Config.Store.{Store, Env, reload}
use revproxy.Serve.{Engine}
use revproxy.Admin.{Tools, AdminRequest, Call, World, apply, save}
use revproxy.Admin.Api.{api}

abbrev pub first_channel : List (List Config) → List Config
first_channel [] = []
first_channel (ch ∷ rest) = ch

abbrev pub channel : Store → List Config
channel s = first_channel s.subs

-- fi.ModTime().After(last), where `none` is the zero time.
abbrev pub is_newer : ℕ → Option ℕ → Bool
is_newer m none = true
is_newer m (some last) = ltb last m

module _ (t : Tools) where
  abbrev pub receive : World t → List (List Config) → World t
  receive w [] = w
  receive w ([] ∷ rest) = w
  receive w ((c ∷ ch) ∷ rest) =
      (apply t c (record w { store = record w.store { subs = ch ∷ rest } })).0

  -- One round of the subscriber's loop; with no message it waits.
  pub follow : World t → World t
  follow w = receive w w.store.subs

  abbrev pub reapply : World t → Store × Bool → World t
  reapply w (s, true) = (apply t s.cfg (record w { store = s })).0
  reapply w (s, false) = record w { store = s }

  -- One tick of `watchConfig`: the time of the file, `none` where it is not there, and the time
  -- that was seen last.
  pub watch : Env → Option ℕ → World t × Option ℕ → World t × Option ℕ
  watch env none (w, last) = (w, last)
  watch env (some m) (w, last) =
      if is_newer m last
      then (reapply w (reload t.codec t.stable_sort env w.store), some m)
      else (w, last)

  -- The rounds of the subscriber's loop until its channel is empty.
  pub drain : ℕ → World t → World t
  unfolding follow
  drain zero w = w
  drain (suc n) w = drain n (follow w)

  pub settle : World t → World t
  unfolding drain
  settle w = drain (length (channel w.store)) w

  -- One step of the program. No lock is held over a request to the administration API: besides one
  -- that nobody interrupts (`asked`), its update (`updated`) and its `engine.Reload(store.Get())`
  -- (`loaded`) are steps of their own, between which others may come, and so are those of the file
  -- watcher (`ticked`, or `reread` and `loaded`). The configuration that is loaded was read from the
  -- store at any earlier time. The steps exclude three things, each a condition of what is proved:
  -- an announcement that finds the channel full, an old configuration that is loaded when the
  -- channel has no message left, and two updates that are announced in the other order than they
  -- come into force. The subscriber takes a message when it loads it. A request to the proxy changes
  -- handlers and counters, but not the configuration of the engine.
  pub data Step : World t → World t → Type 0 where
    asked :
        (call : Call) (w : World t) (r : AdminRequest) (path : Bytes)
        → length (channel w.store) + 2 ≤ 4
        → Step w (api t call w r path).0
    ticked :
        (env : Env) (stat last : Option ℕ) (w : World t)
        → length (channel w.store) + 1 ≤ 4
        → Step w (watch env stat (w, last)).0
    updated :
        (env : Env) (fn : Config → Config × Bool) (w : World t)
        → length (channel w.store) + 1 ≤ 4
        → Step w (save t env fn w).0
    reread :
        (env : Env) (w : World t)
        → length (channel w.store) + 1 ≤ 4
        → Step w (record w { store = (reload t.codec t.stable_sort env w.store).0 })
    loaded :
        (c : Config) (w : World t)
        → (c ≡ w.store.cfg) ⊎ (channel w.store ≢ [])
        → Step w (apply t c w).0
    followed : (w : World t) → Step w (follow w)
    served :
        (w : World t) (e : Engine t.net) → e.cfg ≡ w.engine.cfg → Step w (record w { engine = e })

  pub data Run : World t → World t → Type 0 where
    start : (w : World t) → Run w w
    then : (u v w : World t) → Run u v → Step v w → Run u w
