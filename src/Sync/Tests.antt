-- ===== src/Sync/Tests.antt =====
-- Examples for the engine that follows the configuration.
use revproxy.Prelude.{inr, ◌≡◌, refl, arith, [], ◌∷◌, codes}
use revproxy.Samples.{a_config, tools, world, store, env}
use revproxy.Config.Store.{clone, update, commit, write_file, write_raw, notify, deliver}
use revproxy.Config.{default_config}
use revproxy.Admin.{World, ok, nothing, save, then_finish, apply_quietly, apply}
use revproxy.Admin.Routes.{delete_route}
use revproxy.Sync.{channel, settle, Run, start, then, updated, loaded}
use revproxy.Sync.Steps.{IsSynced, Copies, newest}
use revproxy.Sync.Settles.{settle-Run, settle-then_finish_full}

tools-Copies : Copies tools
unfolding clone
tools-Copies c = refl

world-IsSynced : IsSynced tools 0 world
world-IsSynced = record { subscribed = λ e. cc; room = omega arith; synced = refl }

-- Two updates, and only then the reload of the first, with the configuration as it was before the
-- second.
abbrev after_update : World tools
after_update = (save tools env (delete_route (codes "rt_1")) world).0

abbrev after_delete : World tools
after_delete = (save tools env (delete_route (codes "rt_2")) after_update).0

abbrev after_load : World tools
after_load = (apply tools after_update.store.cfg after_delete).0

two_requests : Run tools world after_load
unfolding save update commit write_file write_raw clone notify deliver delete_route default_config
two_requests =
    then world after_delete after_load
      (then world after_update after_delete
        (then world world after_update (start world)
          (updated env (delete_route (codes "rt_1")) world (omega arith)))
        (updated env (delete_route (codes "rt_2")) after_update (omega arith)))
      (loaded after_update.store.cfg after_delete (inr (λ e. cc)))

settle-Run_example :
    (channel (settle tools after_load).store ≡ [])
    × (((settle tools after_load).store.cfg ≡ after_load.store.cfg)
        × ((settle tools after_load).engine.cfg ≡ after_load.store.cfg))
settle-Run_example = settle-Run tools tools-Copies world after_load world-IsSynced two_requests

abbrev full : World tools
full = record world {
  store = record store { subs = (a_config ∷ a_config ∷ a_config ∷ a_config ∷ []) ∷ [] };
}

settle-then_finish_full_example :
    (settle tools
      (then_finish tools
        (apply_quietly tools (ok nothing))
        (save tools env (delete_route (codes "rt_1")) full)).0).engine.cfg
    ≡ newest full.engine.cfg (channel full.store)
settle-then_finish_full_example =
    settle-then_finish_full tools tools-Copies env (delete_route (codes "rt_1")) (ok nothing) full
      refl
