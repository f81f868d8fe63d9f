-- ===== src/Sync/Steps.antt =====
-- The steps in which the administration API and main.go touch the store and the engine keep the newest
-- announcement in force.
use revproxy.Prelude.{
  ℕ, ◌+◌, ◌≤◌, ◌<◌, ◌≡◌, ◌≢◌, ◌⊎◌, inl, inr, refl, sym, subst, ◌∙◌, arith, Bool-cases, Bool, true,
  false, List, [], ◌∷◌, ◌++◌, Option, none, some, length, length-append, lt→ltb,
}
use revproxy.Config.{Config}
use revproxy.Config.Store.{Store, Env, clone, update, reload, notify, deliver}
use revproxy.Config.Store.Announced.{IsAnnounced, update-IsAnnounced, reload-IsAnnounced}
use revproxy.Reload.{reload_engine}
use revproxy.Admin.{Tools, World, save, apply}
use revproxy.Sync.{channel, first_channel, receive, follow, reapply, watch, is_newer}

-- The last message of a channel, or else what was there before.
abbrev pub newest : Config → List Config → Config
newest c [] = c
newest c (m ∷ ms) = newest m ms

newest-append : (c m : Config) (ms : List Config) → newest c (ms ++ m ∷ []) ≡ m
newest-append c m [] = refl
newest-append c m (x ∷ ms) = newest-append x m ms

first_channel-notify :
    (c : Config) (subs : List (List Config))
    → subs ≢ []
    → length (first_channel subs) < 4
    → first_channel (notify c subs) ≡ first_channel subs ++ c ∷ []
unfolding notify deliver
first_channel-notify c [] h room = absurd (h refl)
first_channel-notify c (ch ∷ rest) h room = rw (lt→ltb (length ch) 4 room) refl

pub first_channel-notify_full :
    (c : Config) (subs : List (List Config))
    → length (first_channel subs) ≡ 4
    → first_channel (notify c subs) ≡ first_channel subs
unfolding notify deliver
first_channel-notify_full c [] h = refl
first_channel-notify_full c (ch ∷ rest) h = ground (arith, h)

notify-subscribed : (c : Config) (subs : List (List Config)) → subs ≢ [] → notify c subs ≢ []
unfolding notify
notify-subscribed c [] h = absurd (h refl)
notify-subscribed c (ch ∷ rest) h = λ e. cc

module _ (t : Tools) where
  -- main.go has subscribed, its channel has room for `n` more messages, and the configuration in
  -- force is the last one that was announced, or else that of the engine.
  pub record IsSynced (n : ℕ) (w : World t) : Type 0 where
    pub subscribed : w.store.subs ≢ []
    pub room : length (channel w.store) + n ≤ 4
    pub synced : newest w.engine.cfg (channel w.store) ≡ w.store.cfg

  pub IsSynced-weaken : (n m : ℕ) (w : World t) → m ≤ n → IsSynced n w → IsSynced m w
  IsSynced-weaken n m w h v = record {
    subscribed = v.subscribed;
    room = omega (arith, v.room);
    synced = v.synced;
  }

  -- Another store in the same world.
  IsAnnounced-IsSynced :
      (n : ℕ) (w : World t) (s : Store)
      → IsSynced (n + 1) w
      → IsAnnounced t.codec t.stable_sort w.store s
      → IsSynced n (record w { store = s })
  IsAnnounced-IsSynced n w s v (inl (same, kept)) = record {
    subscribed = rw kept v.subscribed;
    room = rw kept (omega (arith, v.room));
    synced = rw (kept, same) v.synced;
  }
  IsAnnounced-IsSynced n w s v (inr told) =
      let ch = first_channel-notify s.cfg w.store.subs v.subscribed (omega (arith, v.room)) in
      record {
        subscribed = rw told (notify-subscribed s.cfg w.store.subs v.subscribed);
        room = rw (told, ch) (omega (arith, v.room, length-append (channel w.store) (s.cfg ∷ [])));
        synced = rw (told, ch) (newest-append w.engine.cfg s.cfg (channel w.store));
      }

  -- Every configuration can be copied by way of its JSON text.
  abbrev pub Copies : Type 0
  Copies = (c : Config) → (clone t.codec t.stable_sort c).1 ≡ false

  pub save-IsSynced :
      (copies : Copies) (n : ℕ) (env : Env) (fn : Config → Config × Bool) (w : World t)
      → IsSynced (n + 1) w
      → IsSynced n (save t env fn w).0
  unfolding save
  save-IsSynced copies n env fn w v =
      IsAnnounced-IsSynced n w (update t.codec t.stable_sort env fn w.store).0 v
        (update-IsAnnounced t.codec t.stable_sort env fn w.store (copies w.store.cfg))

  pub reload-IsSynced :
      (n : ℕ) (env : Env) (w : World t)
      → IsSynced (n + 1) w
      → IsSynced n (record w { store = (reload t.codec t.stable_sort env w.store).0 })
  reload-IsSynced n env w v =
      IsAnnounced-IsSynced n w (reload t.codec t.stable_sort env w.store).0 v
        (reload-IsAnnounced t.codec t.stable_sort env w.store)

  newest-same : (c d : Config) (ms : List Config) → newest d ms ≡ c → newest c ms ≡ c
  newest-same c d [] e = refl
  newest-same c d (m ∷ ms) e = e

  pub apply-IsSynced : (n : ℕ) (w : World t) → IsSynced n w → IsSynced n (apply t w.store.cfg w).0
  unfolding apply reload_engine
  apply-IsSynced n w v = record {
    subscribed = v.subscribed;
    room = v.room;
    synced = newest-same w.store.cfg w.engine.cfg (channel w.store) v.synced;
  }

  newest-unread : (c d : Config) (ms : List Config) → ms ≢ [] → newest c ms ≡ newest d ms
  newest-unread c d [] h = absurd (h refl)
  newest-unread c d (m ∷ ms) h = refl

  -- An old configuration does no harm while a message is unread.
  pub load-IsSynced :
      (n : ℕ) (c : Config) (w : World t)
      → (c ≡ w.store.cfg) ⊎ (channel w.store ≢ [])
      → IsSynced n w
      → IsSynced n (apply t c w).0
  unfolding apply reload_engine
  load-IsSynced n c w (inl e) v =
      subst (λ (d : Config). IsSynced n (apply t d w).0) (sym e) (apply-IsSynced n w v)
  load-IsSynced n c w (inr unread) v = record {
    subscribed = v.subscribed;
    room = v.room;
    synced = newest-unread c w.engine.cfg (channel w.store) unread ∙ v.synced;
  }

  receive-IsSynced :
      (n : ℕ) (w : World t) (subs : List (List Config))
      → w.store.subs ≡ subs
      → IsSynced n w
      → IsSynced n (receive t w subs)
  unfolding apply reload_engine
  receive-IsSynced n w [] e v = v
  receive-IsSynced n w ([] ∷ rest) e v = v
  receive-IsSynced n w ((c ∷ ch) ∷ rest) e v = record {
    subscribed = λ empty. cc;
    room = (let full = v.room in omega (arith, rw e at full));
    synced = (let last = v.synced in rw e at last);
  }

  pub follow-IsSynced : (n : ℕ) (w : World t) → IsSynced n w → IsSynced n (follow t w)
  unfolding follow
  follow-IsSynced n w v = receive-IsSynced n w w.store.subs refl v

  reapply-IsSynced :
      (n : ℕ) (w : World t) (r : Store × Bool)
      → IsSynced n (record w { store = r.0 })
      → IsSynced n (reapply t w r)
  reapply-IsSynced n w (s, true) v = apply-IsSynced n (record w { store = s }) v
  reapply-IsSynced n w (s, false) v = v

  pub watch-IsSynced :
      (n : ℕ) (env : Env) (stat last : Option ℕ) (w : World t)
      → IsSynced (n + 1) w
      → IsSynced n (watch t env stat (w, last)).0
  unfolding watch
  watch-IsSynced n env none last w v = IsSynced-weaken (n + 1) n w (omega arith) v
  watch-IsSynced n env (some m) last w v = elim (Bool-cases (is_newer m last)) [
    | inl newer ↦ rw newer (reapply-IsSynced n w _ (reload-IsSynced n env w v))
    | inr older ↦ rw older (IsSynced-weaken (n + 1) n w (omega arith) v)
  ]
