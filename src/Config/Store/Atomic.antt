-- ===== src/Config/Store/Atomic.antt =====
-- The steps of `Update` and `writeFile` in internal/config/config.go taken together.
use revproxy.Prelude.{
  ◌≡◌, ◌⊎◌, Bool, true, false, List, Option, some, arith, Bytes, [], ◌∷◌, ◌++◌, ◌<◌, ◌≤◌, length,
}
use revproxy.Config.{Config, Route}
use revproxy.Config.Normalize.{normalize}
use revproxy.Config.Store.{
  Codec, Disk, Fault, Store, Env, deliver, notify, clone, write_file, commit, update,
}

module _ (k : Codec) (stable_sort : (Route → Route → Bool) → List Route → List Route) where
  -- The file keeps its text or holds the whole new text, wherever the writing stops; it has the new
  -- text exactly if the call succeeds.
  pub write_file_whole :
      (fault : Option Fault) (d : Disk) (c : Config)
      → (((write_file k stable_sort fault d c).1 ≡ false)
          × ((write_file k stable_sort fault d c).0.file ≡ d.file))
        ⊎ (((write_file k stable_sort fault d c).1 ≡ true)
            × ((write_file k stable_sort fault d c).0.file ≡ k.marshal c))
  unfolding write_file
  write_file_whole fault d c = ground arith

  abbrev Unchanged : Store → Store → Type 0
  Unchanged s t = (t.cfg ≡ s.cfg) × (t.disk.file ≡ s.disk.file) × (t.subs ≡ s.subs)

  -- What the channels of the subscribers hold after `c` was sent: a channel with fewer than four
  -- messages has it as its newest, and a full one is as it was.
  abbrev pub IsTold : Config → List (List Config) → List (List Config) → Type 0
  IsTold c [] [] = Unit {0}
  IsTold c [] (_ ∷ _) = ⊥
  IsTold c (_ ∷ _) [] = ⊥
  IsTold c (ch ∷ chs) (new ∷ news) =
      (((length ch < 4) × (new ≡ ch ++ c ∷ [])) ⊎ ((4 ≤ length ch) × (new ≡ ch)))
      × IsTold c chs news

  notify-IsTold : (c : Config) (subs : List (List Config)) → IsTold c subs (notify c subs)
  unfolding notify deliver
  notify-IsTold c [] = tt
  notify-IsTold c (ch ∷ subs) = (ground arith, notify-IsTold c subs)

  -- The new configuration that a change makes of the one in force.
  abbrev pub changed_to : Env → (Config → Config × Bool) → Store → Config
  changed_to env fn s =
      normalize stable_sort env.entropy env.now (record (fn s.cfg).0 { updated_at = some env.now })

  clone_lem :
      (c : Config) (raw : Bytes)
      → k.marshal c ≡ some raw
      → k.unmarshal raw ≡ some c
      → clone k stable_sort c ≡ (c, false)
  unfolding clone
  clone_lem c raw e f = ground arith

  -- The end of an update of a copy.
  abbrev Committed : Store → Config → Store × Bool → Type 0
  Committed s dup r =
      ((r.1 ≡ false) × Unchanged s r.0)
      ⊎ ((r.1 ≡ true)
          × (r.0.cfg ≡ dup)
          × (r.0.disk.file ≡ k.marshal dup)
          × IsTold dup s.subs r.0.subs)

  commit_lem :
      (env : Env) (s : Store) (dup : Config)
      → Committed s dup (commit k stable_sort env s false dup)
  unfolding commit
  commit_lem env s dup =
      ground (arith, write_file_whole env.fault s.disk dup, notify-IsTold dup s.subs)

  -- When the configuration in force can be written as JSON and is read back from it, `Update` fails
  -- and leaves that configuration, the file and the channels of the subscribers as they were, or it
  -- succeeds: what the change makes of the configuration, in normal form, is in force and in the
  -- file, and it is the newest message of each subscriber whose channel had room for it; a full channel stays as it was, without it.
  pub update_atomic :
      (env : Env) (fn : Config → Config × Bool) (s : Store) (raw : Bytes)
      → k.marshal s.cfg ≡ some raw
      → k.unmarshal raw ≡ some s.cfg
      → let (t, fine) = update k stable_sort env fn s in
        ((fine ≡ false) × Unchanged s t)
        ⊎ ((fine ≡ true)
            × ((fn s.cfg).1 ≡ true)
            × (t.cfg ≡ changed_to env fn s)
            × (t.disk.file ≡ k.marshal t.cfg)
            × IsTold t.cfg s.subs t.subs)
  unfolding update
  update_atomic env fn s raw e f =
      ground (arith, clone_lem s.cfg raw e f, commit_lem env s (changed_to env fn s))
