-- ===== src/Admin/Tests.antt =====
-- Examples for the administration API.
use revproxy.Prelude.{
  ◌≡◌, ◌≢◌, ◌⊎◌, ◌*◌, refl, true, [], ◌∷◌, none, some, pos, Bytes, codes, bytes_eq,
}
use revproxy.Samples.{
  store, in_order, env, a_route, a_config, tools, world, call, delete_request, crypto,
}
use revproxy.Config.Password.{hash_password}
use revproxy.Config.{Config, route_by_id, default_config}
use revproxy.Config.Store.{update, commit, write_file, write_raw, clone}
use revproxy.Stats.{new}
use revproxy.Auth.{second}
use revproxy.Auth.Session.{IsSession}
use mathlib.Core.List.Perm
use revproxy.Config.Normalize.Defaults.{Permutes}
use revproxy.Config.Normalize.{normalize, normalize_routes}
use revproxy.Reload.{reload_engine, build_routes}
use revproxy.Host.{contains}
use revproxy.Admin.Routes.{remove_route, has_route, delete_route}
use revproxy.Admin.Settings.{put_config, import_config, take_config, take_import}
use revproxy.Admin.Changes.{remove_route-gone, import_config-resets}
use revproxy.Admin.{
  copied, save, then_found, then_finish, apply_quietly, apply_loudly, or_errors, apply, Tools,
  World,
}
use revproxy.Admin.Api.{api}
use revproxy.Admin.Api.Guarded.{Carries, api_guarded}

api_guarded_example :
    let r = delete_request in
    ((api tools call world r (codes "routes/rt_1")).0 ≡ world)
    ⊎ (((user : Bytes) × ((token : Bytes) × (Carries tools r token
              × IsSession crypto (9 * second) a_config.admin.secret user token)))
        × ((r.method ≢ codes "GET")
            × ((r.method ≢ codes "HEAD")
                × ((r.admin_header ≢ [])
                    ⊎ (contains (codes "application/json") r.content_type ≡ true)))))
api_guarded_example = api_guarded tools call world delete_request (codes "routes/rt_1")

abbrev with_route : Config
with_route = record a_config { routes = a_route ∷ [] }

abbrev route_tools : Tools
route_tools = record tools {
  codec = record { marshal = λ c. some []; unmarshal = λ s. some with_route };
}

abbrev route_world : World route_tools
route_world = record {
  store = record store { cfg = with_route };
  engine = record { cfg = with_route; handlers = []; collector = new (pos 10) [] 3 };
  targets = [];
  fresh = 0;
}

in_order-Permutes : Permutes in_order
in_order-Permutes less rs = Perm.refl rs

remove_route-gone_example :
    let v = (remove_route route_tools call route_world (codes "rt_1")).0 in
    (has_route (codes "rt_1") (copied route_tools route_world) ≡ true)
    × ((route_by_id (codes "rt_1") v.store.cfg.routes ≡ none) × (v.engine.cfg ≡ v.store.cfg))
unfolding remove_route save update commit write_file write_raw clone has_route route_by_id bytes_eq
    then_found then_finish apply_quietly delete_route
remove_route-gone_example =
    remove_route-gone route_tools in_order-Permutes call route_world (codes "rt_1") (refl, tt) refl

abbrev bare_config : Config
bare_config = record a_config { admin = record a_config.admin { pass_hash = []; secret = [] } }

abbrev bare_tools : Tools
bare_tools = record tools {
  codec = record { marshal = λ c. some []; unmarshal = λ s. some bare_config };
}

abbrev bare_world : World bare_tools
bare_world = record {
  store = store;
  engine = record { cfg = a_config; handlers = []; collector = new (pos 10) [] 3 };
  targets = [];
  fresh = 0;
}

import_config-resets_example :
    let put = (put_config bare_tools call bare_world (some bare_config)).0.store.cfg.admin in
    let import = (import_config bare_tools call bare_world (some (codes "x"))).0.store.cfg.admin in
    ((put.pass_hash ≡ a_config.admin.pass_hash) × (put.secret ≡ a_config.admin.secret))
    × ((import.pass_hash ≡ hash_password crypto none (codes "admin123"))
        × (import.secret ≡ env.entropy.secret))
unfolding put_config import_config save update commit write_file write_raw clone then_finish
    apply_loudly or_errors apply reload_engine build_routes take_config take_import normalize
    normalize_routes default_config
import_config-resets_example =
    import_config-resets bare_tools call bare_world (codes "x") bare_config refl refl refl refl refl
      refl refl
