-- ===== src/Config/Tests.antt =====
-- Examples for the configuration and its store.
use mathlib.Core.List.{Perm, mem-cons_self}
use mathlib.Core.List.Perm
use revproxy.Prelude.{◌≡◌, ◌⊎◌, refl, Bool, true, false, [], ◌∷◌, some, pos, codes}
use revproxy.Samples.{in_order, drawn, codec, store, env, a_route, a_config}
use revproxy.Config.{Config, Route, default_config}
use revproxy.Config.Normalize.{normalize, route_less, normalize_route, normalize_routes}
use revproxy.Config.Normalize.Order.{route_less_priority}
use revproxy.Config.Normalize.Defaults.{IsNormal, Permutes, normalize-IsNormal}
use revproxy.Config.Store.{update}
use revproxy.Config.Store.Atomic.{update_atomic, changed_to, IsTold}

abbrev urgent : Route
urgent = record a_route { priority = pos 5 }

route_less_priority_example :
    (route_less urgent a_route ≡ true) × (route_less a_route urgent ≡ false)
route_less_priority_example = route_less_priority urgent a_route refl

in_order-Permutes : Permutes in_order
in_order-Permutes less rs = Perm.refl rs

abbrev bare : Config
bare = record a_config { routes = record a_route { id = []; path = [] } ∷ [] }

normalize-IsNormal_example :
    IsNormal (normalize_route (codes "0f") 9 (record a_route { id = []; path = [] }))
unfolding normalize normalize_routes
normalize-IsNormal_example =
    normalize-IsNormal in_order in_order-Permutes drawn 9 bare (mem-cons_self)

abbrev add_route : Config → Config × Bool
add_route c = (record c { routes = a_route ∷ c.routes }, true)

update_atomic_example :
    let (t, fine) = update codec in_order env add_route store in
    ((fine ≡ false)
      × ((t.cfg ≡ a_config) × (t.disk.file ≡ some (codes "old")) × (t.subs ≡ [] ∷ [])))
    ⊎ ((fine ≡ true)
        × ((add_route a_config).1 ≡ true)
        × (t.cfg ≡ changed_to codec in_order env add_route store)
        × (t.disk.file ≡ codec.marshal t.cfg)
        × IsTold codec in_order t.cfg ([] ∷ []) t.subs)
unfolding default_config
update_atomic_example = update_atomic codec in_order env add_route store [] refl refl
