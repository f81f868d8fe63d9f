-- ===== src/Start/Tests.antt =====
-- Examples for the start of the program.
use revproxy.Prelude.{
  ◌≡◌, ◌↔◌, ◌++◌, refl, true, false, [], ◌∷◌, codes, Bytes, bytes_eq, has_prefix, has_byte, strip,
  trim_right,
}
use revproxy.Config.{default_config}
use revproxy.Admin.Site.{serve_site, site_prefix, redirect, calls}
use revproxy.Start.{
  Flags, Environment, config_path, override, override_addr, override_admin_addr, to_admin, to_echo,
  dispatch, admin_url, with_colon,
}
use revproxy.Start.Overrides.{
  HasText, Shows, wanted_addr, wanted_admin_addr, wanted_level, asks_nothing, override-Shows,
}
use revproxy.Start.Dispatch.{IsBelow, shown, dispatch-site}
use revproxy.Samples.{a_config, codec, in_order, store, env}

abbrev no_flags : Flags
no_flags = record { config = []; addr = []; admin_addr = []; data_dir = []; debug = false }

abbrev bare : Environment
bare = record { revproxy_config = []; revproxy_data = []; port = [] }

abbrev joined : Bytes → Bytes → Bytes
joined d f = d ++ b'/' ∷ f

default_path : config_path joined no_flags bare ≡ codes "data/config.json"
unfolding config_path
default_path = refl

path_of_env :
    config_path joined
      (record no_flags { data_dir = codes "d" })
      (record bare { revproxy_config = codes "c" })
    ≡ codes "c"
unfolding config_path
path_of_env = refl

bare_port : with_colon (codes "80") ≡ codes ":80"
unfolding with_colon has_byte
bare_port = refl

abbrev texts : HasText codec
texts = record { text = λ c. c.extra; written = λ c. refl }

override-Shows_example :
    let f = record no_flags { debug = true } in
    let t = override codec in_order (λ i. env) f bare store in
    Shows codec in_order texts t
      (wanted_addr codec in_order texts f bare a_config.listen.addr)
      (wanted_admin_addr codec in_order texts f a_config.listen.admin_addr)
      (wanted_level codec in_order texts f a_config.log.level)
    × (asks_nothing codec in_order texts f bare ≡ false → t.disk.file ≡ codec.marshal t.cfg)
unfolding override_addr override_admin_addr default_config
override-Shows_example =
    override-Shows codec in_order texts (λ i. env) (record no_flags { debug = true }) bare store
      (λ i. refl) refl refl refl refl refl

echo_path : dispatch a_config (codes "/__echo/x") ≡ to_echo
unfolding dispatch default_config bytes_eq has_prefix
echo_path = refl

dispatch-site_example :
    ((dispatch a_config (codes "/__admin/x") ≡ to_admin)
      ↔ IsBelow (codes "/__admin") (codes "/__admin/x"))
    × ((serve_site (site_prefix (codes "/__admin")) (codes "/__admin")
          ≡ redirect (codes "/__admin/"))
        × ((serve_site (site_prefix (codes "/__admin")) (codes "/__admin/x") ≡ shown (codes "x"))
            × (serve_site (site_prefix (codes "/__admin")) (codes "/__admin/api/logs")
                ≡ calls (codes "logs"))))
unfolding default_config trim_right
dispatch-site_example =
    dispatch-site a_config (codes "/__admin/x") (codes "x") (codes "logs") (λ e. cc) refl

banner_url : admin_url a_config (codes "/__admin") [] ≡ codes "http://127.0.0.1:8080/__admin/"
unfolding admin_url default_config has_prefix strip
banner_url = refl
