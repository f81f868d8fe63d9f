-- ===== src/Config/Store.antt =====
-- The store of internal/config/config.go: the configuration in force, its file, and the channels of
-- the subscribers.
pub mod Atomic
pub mod Announced
use revproxy.Prelude.{
  ℕ, ◌≡◌, Bool, true, false, List, [], ◌∷◌, ◌++◌, map, Option, none, some, ltb, if◌then◌else◌,
  length, Bytes, is_empty, ◌||◌,
}
use revproxy.Config.{Config, Route, default_config}
use revproxy.Config.Normalize.{Entropy, normalize}

-- Package `encoding/json` on a configuration.
pub record Codec : Type 0 where
  pub marshal : Config → Option Bytes
  pub unmarshal : Bytes → Option Config

-- The file and the temporary file next to it.
pub record Disk : Type 0 where
  pub file : Option Bytes
  pub tmp : Option Bytes

-- The step of `writeFile` that fails; a failing write leaves any text in the temporary file.
pub data Fault : Type 0 where
  mkdir_fails : Fault
  write_fails : Option Bytes → Fault
  rename_fails : Fault

pub record Store : Type 0 where
  pub cfg : Config
  pub disk : Disk
  pub subs : List (List Config)

-- What the system gives during one call.
pub record Env : Type 0 where
  pub now : ℕ
  pub entropy : Entropy
  pub fault : Option Fault

-- Sending to a subscriber, whose channel has four places: a full one loses the message, unless it
-- is read in the second of waiting. The channel given is the one at the moment when the message
-- goes in or the second ends, so a message read in that second is no longer in it.
unfoldable pub deliver : Config → List Config → List Config
deliver c ch = if ltb (length ch) 4 then ch ++ c ∷ [] else ch

unfoldable pub notify : Config → List (List Config) → List (List Config)
unfolding deliver
notify c subs = map (deliver c) subs

pub subscribe : Store → Store
subscribe s = record s { subs = s.subs ++ [] ∷ [] }

module _ (k : Codec) (stable_sort : (Route → Route → Bool) → List Route → List Route) where
  -- A copy by way of its JSON text; `true` says that the copy failed and is the original itself.
  unfoldable pub clone : Config → Config × Bool
  clone c = elim (k.marshal c) [
    | none ↦ (c, true)
    | some raw ↦ elim (k.unmarshal raw) [ none ↦ (c, true) | some out ↦ (out, false) ]
  ]

  unfoldable pub write_raw : Option Fault → Disk → Bytes → Disk × Bool
  write_raw none d raw = (record { file = some raw; tmp = none }, true)
  write_raw (some mkdir_fails) d raw = (d, false)
  write_raw (some (write_fails part)) d raw = (record d { tmp = part }, false)
  write_raw (some rename_fails) d raw = (record d { tmp = some raw }, false)

  unfoldable pub write_file : Option Fault → Disk → Config → Disk × Bool
  unfolding write_raw
  write_file fault d c = elim (k.marshal c) [ none ↦ (d, false) | some raw ↦ write_raw fault d raw ]

  -- The end of `Update`: `shared` says whether `dup` is the configuration in force itself.
  unfoldable pub commit : Env → Store → Bool → Config → Store × Bool
  unfolding write_file notify
  commit env s shared dup =
      let (disk, written) = write_file env.fault s.disk dup in
      if written
      then (record { cfg = dup; disk = disk; subs = notify dup s.subs }, true)
      else (record s { cfg = if shared then dup else s.cfg; disk = disk }, false)

  -- `fn` changes the configuration that it is given, and says whether it succeeded.
  unfoldable pub update : Env → (Config → Config × Bool) → Store → Store × Bool
  unfolding clone commit
  update env fn s =
      let (dup, shared) = clone s.cfg in
      let (changed, fine) = fn dup in
      if fine
      then commit env s shared
          (normalize stable_sort env.entropy env.now (record changed { updated_at = some env.now }))
      else (record s { cfg = if shared then changed else s.cfg }, false)

  unfoldable pub reload_raw : Env → Store → Option Bytes → Store × Bool
  unfolding notify
  reload_raw env s none = (s, false)
  reload_raw env s (some raw) = elim (k.unmarshal raw) [
    | none ↦ (s, false)
    | some c ↦
        let cfg = normalize stable_sort env.entropy env.now c in
        (record s { cfg = cfg; subs = notify cfg s.subs }, true)
  ]

  unfoldable pub reload : Env → Store → Store × Bool
  unfolding reload_raw
  reload env s = reload_raw env s s.disk.file

  -- `Load`, from the configuration that was read or written first.
  pub open_store : Env → Disk → Config → Store
  unfolding write_file
  open_store env d c =
      let cfg = normalize stable_sort env.entropy env.now c in
      let need_save = is_empty c.admin.secret || is_empty c.admin.pass_hash in
      record {
        cfg = cfg;
        disk = if need_save then (write_file env.fault d cfg).0 else d;
        subs = [];
      }

  pub load_default : Env → Disk → Option Store
  unfolding open_store
  load_default env d =
      let cfg = default_config env.entropy.crypto env.entropy.salt env.entropy.secret env.now in
      let (disk, written) = write_file env.fault d cfg in
      if written then some (open_store env disk cfg) else none

  -- `none` is an error; an empty file counts as none.
  pub load : Env → Disk → Option Store
  unfolding load_default
  load env d = elim d.file [
    | none ↦ load_default env d
    | some raw ↦
        if is_empty raw
        then load_default env d
        else elim (k.unmarshal raw) [ none ↦ none | some c ↦ some (open_store env d c) ]
  ]
