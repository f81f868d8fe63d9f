-- ===== src/Auth/Tests.antt =====
-- Examples for the sessions.
use revproxy.Prelude.{
  ◌*◌, wrap64, ◌+ℤ◌, ◌*ℤ◌, [], ◌≡◌, ◌↔◌, refl, arith, none, some, if◌then◌else◌, has_byte, codes,
}
use revproxy.Samples.{a_config, crypto, in_order, env, store}
use revproxy.Config.{Config, default_config}
use revproxy.Config.Password.{hash_password}
use revproxy.Config.Store.{Codec}
use revproxy.Auth.{expiry, ttl, floor_div, token, verify, second, change_password}
use revproxy.Auth.Session.{IsSession, verify_iff, verify-token}
use revproxy.Auth.Change.{IsAnswered, change_password-IsAnswered}

verify_iff_example :
    let t = token crypto (5 * second) a_config.admin (codes "admin") in
    (verify crypto (9 * second) a_config.admin t ≡ some (codes "admin"))
    ↔ IsSession crypto (9 * second) a_config.admin.secret (codes "admin") t
verify_iff_example =
    verify_iff crypto (9 * second) a_config.admin (codes "admin")
      (token crypto (5 * second) a_config.admin (codes "admin"))

verify-token_example :
    verify crypto
      (9 * second)
      a_config.admin
      (token crypto (5 * second) a_config.admin (codes "a.b"))
    ≡ (if has_byte b'.' (codes "a.b") then none else some (codes "a.b"))
unfolding default_config expiry ttl floor_div wrap64 ◌+ℤ◌ ◌*ℤ◌
verify-token_example =
    verify-token crypto (5 * second) (9 * second) a_config.admin a_config.admin (codes "a.b")
      (omega arith) refl (omega arith)

abbrev locked : Config
locked = record a_config {
  admin = record a_config.admin { pass_hash = hash_password crypto none (codes "old") };
}

abbrev locked_codec : Codec
locked_codec = record { marshal = λ cfg. some []; unmarshal = λ raw. some locked }

change_password-IsAnswered_example :
    let s = record store { cfg = locked } in
    IsAnswered crypto locked_codec in_order 7 8 (codes "old") (codes "longer") s (
      change_password crypto locked_codec in_order env 7
        (some (codes "xy"))
        (codes "old")
        (codes "longer")
        s)
unfolding default_config
change_password-IsAnswered_example =
    change_password-IsAnswered crypto locked_codec in_order env 7 8 (some (codes "xy"))
      (codes "old") (codes "longer") (record store { cfg = locked }) [] refl refl refl refl
