-- ===== src/Sync/Replies.antt =====
-- The ends of the handlers of the administration API keep the newest announcement in force.
use revproxy.Prelude.{arith, Bool, true, false, List, [], ◌∷◌, if◌then◌else◌}
use revproxy.Config.{Config}
use revproxy.Config.Store.{Env}
use revproxy.Reload.{ReloadError}
use revproxy.Admin.{
  Tools, Reply, World, save, or_errors, apply_loudly, apply_quietly, then_finish, then_found,
}
use revproxy.Sync.Steps.{IsSynced, IsSynced-weaken, Copies, save-IsSynced, apply-IsSynced}

module _ (t : Tools) where
  -- A reply after which all is well.
  pub record Fine (r : World t × Reply) : Type 0 where
    pub synced : IsSynced t 0 r.0

  abbrev pub Keeps : (World t → World t × Reply) → Type 0
  Keeps f = (v : World t) → IsSynced t 0 v → Fine (f v)

  pub Fine-if : (b : Bool) (x y : World t × Reply) → Fine x → Fine y → Fine (if b then x else y)
  Fine-if true x y h k = h
  Fine-if false x y h k = k

  pub or_errors-Fine :
      (reply : Reply) (r : World t × List ReloadError)
      → IsSynced t 0 r.0
      → Fine (or_errors t reply r)
  unfolding or_errors
  or_errors-Fine reply (w, []) h = record { synced = h }
  or_errors-Fine reply (w, e ∷ es) h = record { synced = h }

  pub apply_loudly-Keeps : (reply : Reply) → Keeps (apply_loudly t reply)
  unfolding apply_loudly
  apply_loudly-Keeps reply v h = or_errors-Fine reply _ (apply-IsSynced t 0 v h)

  pub apply_quietly-Keeps : (reply : Reply) → Keeps (apply_quietly t reply)
  unfolding apply_quietly
  apply_quietly-Keeps reply v h = record { synced = apply-IsSynced t 0 v h }

  pub then_finish-Fine :
      (finish : World t → World t × Reply) (r : World t × Bool)
      → Keeps finish
      → IsSynced t 0 r.0
      → Fine (then_finish t finish r)
  unfolding then_finish
  then_finish-Fine finish (w, true) k h = k w h
  then_finish-Fine finish (w, false) k h = record { synced = h }

  pub then_found-Fine :
      (found : Bool) (finish : World t → World t × Reply) (r : World t × Bool)
      → Keeps finish
      → IsSynced t 0 r.0
      → Fine (then_found t found finish r)
  unfolding then_found
  then_found-Fine true finish r k h = then_finish-Fine finish r k h
  then_found-Fine false finish r k h = then_finish-Fine _ r (λ v e. record { synced = e }) h

  module _ (copies : Copies t) where
    pub saved-Fine :
        (env : Env) (fn : Config → Config × Bool) (finish : World t → World t × Reply) (w : World t)
        → Keeps finish
        → IsSynced t 1 w
        → Fine (then_finish t finish (save t env fn w))
    saved-Fine env fn finish w k h =
        then_finish-Fine finish _ k (save-IsSynced t copies 0 env fn w h)

    pub found-Fine :
        (found : Bool) (env : Env) (fn : Config → Config × Bool)
        (finish : World t → World t × Reply) (w : World t)
        → Keeps finish
        → IsSynced t 1 w
        → Fine (then_found t found finish (save t env fn w))
    found-Fine found env fn finish w k h =
        then_found-Fine found finish _ k (save-IsSynced t copies 0 env fn w h)

    pub kept : (w : World t) (reply : Reply) → IsSynced t 1 w → Fine (w, reply)
    kept w reply h = record { synced = IsSynced-weaken t 1 0 w (omega arith) h }
