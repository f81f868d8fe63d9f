-- ===== src/Reload/Tests.antt =====
-- Examples for the reload.
use revproxy.Prelude.{
  Bool, true, false, [], ◌∷◌, Option, none, some, pos, Bytes, codes, is_empty, if◌then◌else◌,
}
use revproxy.Samples.{a_route, a_config, a_url, text_net}
use revproxy.Config.{BackendConfig, Config}
use revproxy.Backend.{Url}
use revproxy.Stats.{new}
use revproxy.Serve.{Engine}
use revproxy.Reload.{reload_engine}
use revproxy.Reload.Built.{Handlers, reload_engine-Handlers}

abbrev parse_url : Bytes → Option Url
parse_url s = if is_empty s then none else some (a_url s [])

abbrev backend : Bytes → BackendConfig
backend url = record { url = url; weight = pos 2; proxy_id = []; backup = false }

abbrev compiles : Bytes → Bool
compiles re = true

abbrev two_routes : Config
two_routes = record a_config {
  routes =
      record a_route { backends = backend (codes "a") ∷ backend [] ∷ backend (codes "b") ∷ [] }
      ∷ record a_route { path = codes "/x"; backends = backend (codes "c") ∷ [] }
      ∷ [];
}

abbrev engine : Engine text_net
engine = record { cfg = a_config; handlers = []; collector = new (pos 10) [] 3 }

reload_engine-Handlers_example :
    Handlers text_net 7 (reload_engine text_net parse_url compiles two_routes 7 engine).0.handlers
reload_engine-Handlers_example =
    reload_engine-Handlers text_net parse_url compiles two_routes 7 engine
