-- ===== src/Config/Store/Announced.antt =====
-- What the operations of the store in internal/config/config.go announce to the subscribers.
use revproxy.Prelude.{
  ◌≡◌, ◌⊎◌, inl, inr, refl, Bool, true, false, List, Option, none, some, arith, Bytes, Bool-cases,
  Option-cases,
}
use revproxy.Config.{Config, Route}
use revproxy.Config.Normalize.{normalize}
use revproxy.Config.Store.{Codec, Store, Env, notify, clone, commit, update, reload, reload_raw}

module _ (k : Codec) (stable_sort : (Route → Route → Bool) → List Route → List Route) where
  -- The configuration in force and the channels stay, or a new one is in force and announced.
  abbrev pub IsAnnounced : Store → Store → Type 0
  IsAnnounced s t = ((t.cfg ≡ s.cfg) × (t.subs ≡ s.subs)) ⊎ (t.subs ≡ notify t.cfg s.subs)

  commit-IsAnnounced :
      (env : Env) (s : Store) (dup : Config)
      → IsAnnounced s (commit k stable_sort env s false dup).0
  unfolding commit
  commit-IsAnnounced env s dup = ground arith

  -- As long as the configuration in force can be copied.
  pub update-IsAnnounced :
      (env : Env) (fn : Config → Config × Bool) (s : Store)
      → (clone k stable_sort s.cfg).1 ≡ false
      → IsAnnounced s (update k stable_sort env fn s).0
  unfolding update
  update-IsAnnounced env fn s copied = ground (
    arith,
    copied,
    commit-IsAnnounced env s (
        normalize stable_sort env.entropy env.now
          (record (fn (clone k stable_sort s.cfg).0).0 { updated_at = some env.now })),
  )

  reload_raw-IsAnnounced :
      (env : Env) (s : Store) (o : Option Bytes)
      → IsAnnounced s (reload_raw k stable_sort env s o).0
  unfolding reload_raw
  reload_raw-IsAnnounced env s none = inl (refl, refl)
  reload_raw-IsAnnounced env s (some raw) = elim (Option-cases (k.unmarshal raw)) [
    | inl bad ↦ rw (reload_raw, bad) (inl (refl, refl))
    | inr (c, e) ↦ rw (reload_raw, e) (inr refl)
  ]

  pub reload-IsAnnounced : (env : Env) (s : Store) → IsAnnounced s (reload k stable_sort env s).0
  unfolding reload
  reload-IsAnnounced env s = reload_raw-IsAnnounced env s s.disk.file

  commit-saved :
      (env : Env) (s : Store) (shared : Bool) (dup : Config)
      → (commit k stable_sort env s shared dup).1 ≡ true
      → (commit k stable_sort env s shared dup).0.cfg ≡ dup
  unfolding commit
  commit-saved env s shared dup e = ground arith

  -- What the change makes of the copy, in normal form, is in force after an update that succeeds.
  pub update-saved :
      (env : Env) (fn : Config → Config × Bool) (s : Store)
      → (update k stable_sort env fn s).1 ≡ true
      → (update k stable_sort env fn s).0.cfg
        ≡ normalize stable_sort env.entropy env.now
            (record (fn (clone k stable_sort s.cfg).0).0 { updated_at = some env.now })
  unfolding update
  update-saved env fn s e = elim (Bool-cases (fn (clone k stable_sort s.cfg).0).1) [
    | inl fine ↦ rw (update, fine) (commit-saved env s _ _ (rw (update, fine) at e))
    | inr failed ↦ absurd (ground (arith, failed))
  ]
