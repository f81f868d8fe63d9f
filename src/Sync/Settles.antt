-- ===== src/Sync/Settles.antt =====
-- The engine gets the configuration in force in the end.
use revproxy.Prelude.{
  ℕ, ◌+◌, ◌≤◌, ◌≡◌, inl, inr, refl, ap, ◌∙◌, subst, arith, Bool, true, false, List, [], ◌∷◌, length,
}
use mathlib.Core.List.{head-eq_of_cons-eq, tail-eq_of_cons-eq}
use revproxy.Config.{Config}
use revproxy.Config.Store.{Store, Env, update}
use revproxy.Config.Store.Announced.{IsAnnounced, update-IsAnnounced}
use revproxy.Reload.{reload_engine}
use revproxy.Admin.{Tools, World, Reply, apply, save, then_finish, apply_quietly}
use revproxy.Sync.{
  channel, first_channel, receive, follow, drain, settle, Step, asked, ticked, updated, reread,
  loaded, followed, served, Run, start, then,
}
use revproxy.Sync.Steps.{
  IsSynced, Copies, newest, first_channel-notify_full, follow-IsSynced, watch-IsSynced,
  save-IsSynced, reload-IsSynced, load-IsSynced,
}
use revproxy.Sync.Requests.{api-IsSynced}

module _ (t : Tools) where
  -- The room of a world that is known to have some.
  with_room :
      (n : ℕ) (w : World t) → length (channel w.store) + n ≤ 4 → IsSynced t 0 w → IsSynced t n w
  with_room n w h v = record { subscribed = v.subscribed; room = h; synced = v.synced }

  Step-IsSynced : (copies : Copies t) (w v : World t) → Step t w v → IsSynced t 0 w → IsSynced t 0 v
  Step-IsSynced copies _ _ (asked call w r path room) h =
      api-IsSynced t copies call w r path (with_room 2 w room h)
  Step-IsSynced copies _ _ (ticked env stat last w room) h =
      watch-IsSynced t 0 env stat last w (with_room 1 w room h)
  Step-IsSynced copies _ _ (updated env fn w room) h =
      save-IsSynced t copies 0 env fn w (with_room 1 w room h)
  Step-IsSynced copies _ _ (reread env w room) h = reload-IsSynced t 0 env w (with_room 1 w room h)
  Step-IsSynced copies _ _ (loaded c w fresh) h = load-IsSynced t 0 c w fresh h
  Step-IsSynced copies _ _ (followed w) h = follow-IsSynced t 0 w h
  Step-IsSynced copies _ _ (served w e same) h = record {
    subscribed = h.subscribed;
    room = h.room;
    synced = rw same h.synced;
  }

  Run-IsSynced : (copies : Copies t) (w v : World t) → Run t w v → IsSynced t 0 w → IsSynced t 0 v
  Run-IsSynced copies _ _ (start w) h = h
  Run-IsSynced copies _ _ (then w u v run step) h =
      Step-IsSynced copies u v step (Run-IsSynced copies w u run h)

  -- The subscriber takes one message off its channel and leaves the configuration in force alone.
  receive_lem :
      (w : World t) (subs : List (List Config)) (c : Config) (ch : List Config)
      → w.store.subs ≡ subs
      → first_channel subs ≡ c ∷ ch
      → (channel (receive t w subs).store ≡ ch) × ((receive t w subs).store.cfg ≡ w.store.cfg)
  unfolding apply
  receive_lem w [] c ch e f = cc
  receive_lem w ([] ∷ rest) c ch e f = cc
  receive_lem w ((d ∷ more) ∷ rest) c ch e f = (tail-eq_of_cons-eq f, refl)

  follow_lem :
      (w : World t) (c : Config) (ch : List Config)
      → channel w.store ≡ c ∷ ch
      → (channel (follow t w).store ≡ ch) × ((follow t w).store.cfg ≡ w.store.cfg)
  unfolding follow
  follow_lem w c ch e = receive_lem w w.store.subs c ch refl e

  drain_lem :
      (ms : List Config) (w : World t)
      → channel w.store ≡ ms
      → IsSynced t 0 w
      → (channel (drain t (length ms) w).store ≡ [])
        × (((drain t (length ms) w).store.cfg ≡ w.store.cfg) × IsSynced t 0 (drain t (length ms) w))
  unfolding drain
  drain_lem [] w e h = (e, (refl, h))
  drain_lem (m ∷ ms) w e h =
      let (rest, kept) = follow_lem w m ms e in
      let (empty, (same, synced)) = drain_lem ms (follow t w) rest (follow-IsSynced t 0 w h) in
      (empty, (same ∙ kept, synced))

  -- From a state in which main.go has subscribed and the newest announcement is in force, after any
  -- steps of requests to the administration API, of the file watcher, of the subscriber and of
  -- requests to the proxy, whether the updates and the reloads of the engine that belong to one
  -- request or tick come together or with those of others in between, on these conditions: each
  -- configuration can be copied; updates are announced in the order in which they come into force,
  -- and the channel has room for each; and an engine is reloaded with a configuration that is no
  -- longer in force only while a message is unread. Then, once the subscriber has read what is in its
  -- channel, the channel is empty, and the engine has the configuration that was in force.
  pub settle-Run :
      (copies : Copies t) (w v : World t)
      → IsSynced t 0 w
      → Run t w v
      → (channel (settle t v).store ≡ [])
        × (((settle t v).store.cfg ≡ v.store.cfg) × ((settle t v).engine.cfg ≡ v.store.cfg))
  unfolding settle
  settle-Run copies w v h run =
      let ms = channel v.store in
      let (empty, (same, end)) = drain_lem ms v refl (Run-IsSynced copies w v run h) in
      (
        empty,
        (
          same,
          subst
                (λ (rest : List Config).
                  newest (drain t (length ms) v).engine.cfg rest
                  ≡ (drain t (length ms) v).store.cfg)
                empty end.synced
              ∙ same,
        ),
      )

  -- A configuration that was read from the store before an update, and with which the engine is
  -- reloaded when the channel is already empty, stays.
  settle-stale :
      (c : Config) (w : World t) → channel w.store ≡ [] → (settle t (apply t c w).0).engine.cfg ≡ c
  unfolding settle drain apply reload_engine
  settle-stale c w e = rw e refl

  receive-engine :
      (w : World t) (subs : List (List Config)) (c : Config) (ch : List Config)
      → first_channel subs ≡ c ∷ ch
      → (receive t w subs).engine.cfg ≡ c
  unfolding apply reload_engine
  receive-engine w [] c ch f = cc
  receive-engine w ([] ∷ rest) c ch f = cc
  receive-engine w ((d ∷ more) ∷ rest) c ch f = head-eq_of_cons-eq f

  drain-engine :
      (ms : List Config) (w : World t)
      → channel w.store ≡ ms
      → (drain t (length ms) w).engine.cfg ≡ newest w.engine.cfg ms
  unfolding drain follow
  drain-engine [] w e = refl
  drain-engine (m ∷ ms) w e =
      drain-engine ms (follow t w) (follow_lem w m ms e).0
      ∙ ap (λ (c : Config). newest c ms) (receive-engine w w.store.subs m ms e)

  full_channel :
      (w : World t) (s : Store)
      → length (channel w.store) ≡ 4
      → IsAnnounced t.codec t.stable_sort w.store s
      → channel s ≡ channel w.store
  full_channel w s full (inl (_, kept)) = ap first_channel kept
  full_channel w s full (inr told) =
      ap first_channel told ∙ first_channel-notify_full s.cfg w.store.subs full

  newest-other : (c d : Config) (ms : List Config) → length ms ≡ 4 → newest c ms ≡ newest d ms
  newest-other c d [] h = absurd (omega (arith, h))
  newest-other c d (m ∷ ms) h = refl

  settle-full :
      (c : Config) (ms : List Config) (v : World t)
      → length ms ≡ 4
      → channel v.store ≡ ms
      → (settle t v).engine.cfg ≡ newest c ms
  unfolding settle
  settle-full c ms v full e =
      drain-engine (channel v.store) v refl
      ∙ ap (newest v.engine.cfg) e
      ∙ newest-other v.engine.cfg c ms full

  finish_full :
      (reply : Reply) (c : Config) (ms : List Config) (r : World t × Bool)
      → length ms ≡ 4
      → channel r.0.store ≡ ms
      → (settle t (then_finish t (apply_quietly t reply) r).0).engine.cfg ≡ newest c ms
  unfolding then_finish apply_quietly apply
  finish_full reply c ms (v, true) full e = settle-full c ms (apply t v.store.cfg v).0 full e
  finish_full reply c ms (v, false) full e = settle-full c ms v full e

  -- When the channel of main.go is full, and each configuration could be copied, a change through the
  -- administration API is lost: once the subscriber has read its messages, the
  -- engine has the last configuration that was announced before the change.
  pub settle-then_finish_full :
      (copies : Copies t) (env : Env) (fn : Config → Config × Bool) (reply : Reply) (w : World t)
      → length (channel w.store) ≡ 4
      → (settle t (then_finish t (apply_quietly t reply) (save t env fn w)).0).engine.cfg
        ≡ newest w.engine.cfg (channel w.store)
  unfolding save
  settle-then_finish_full copies env fn reply w full =
      let s = (update t.codec t.stable_sort env fn w.store).0 in
      finish_full reply w.engine.cfg (channel w.store) (save t env fn w) full (
        full_channel w s full
          (update-IsAnnounced t.codec t.stable_sort env fn w.store (copies w.store.cfg)))
