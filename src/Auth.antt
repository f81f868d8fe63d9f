-- ===== src/Auth.antt =====
-- The sessions of the administrator, internal/admin/auth.go. A time is in nanoseconds since 1970.
-- HMAC, hexadecimal text and the random salt are parameters.
pub mod Session
pub mod Change
mod Tests
use revproxy.Prelude.{
  ℕ, ◌+◌, ◌*◌, ◌/◌, ◌^◌, Bool, true, false, not, [], ◌∷◌, ◌++◌, List, Option, none, some,
  if◌then◌else◌, ltb, length, ℤ, pos, negsuc, ◌+ℤ◌, ◌*ℤ◌, ltb_ℤ, wrap64, default_to, Bytes,
  bytes_eq, is_empty, show_ℤ, parse_int,
}
use revproxy.Config.{Config, Admin, Route}
use revproxy.Config.Password.{Crypto, split_once, hash_password, verify_password}
use revproxy.Config.Store.{Codec, Store, Env, update}

abbrev pub second : ℕ
second = 10 ^ 9

-- Division that rounds down.
pub floor_div : ℤ → ℕ → ℤ
floor_div (pos n) m = pos (n / m)
floor_div (negsuc n) m = negsuc (n / m)

-- How long a session lasts; the product of a `time.Duration` wraps.
pub ttl : Admin → ℤ
unfolding wrap64 ◌*ℤ◌
ttl adm = wrap64 (default_to 12 adm.session_ttl *ℤ pos (3600 * second))

-- time.Now().Unix()
abbrev pub unix : ℕ → ℕ
unix now = now / second

pub expiry : ℕ → Admin → ℤ
unfolding ttl floor_div ◌+ℤ◌
expiry now adm = floor_div (pos now +ℤ ttl adm) second

-- strings.SplitN(token, ".", 3) where there are three parts.
pub split_token : Bytes → Option (Bytes × (Bytes × Bytes))
unfolding split_once
split_token s = elim (split_once b'.' s) [
  | none ↦ none
  | some (stamp, rest) ↦ elim (split_once b'.' rest) [
    | none ↦ none
    | some (user, tag) ↦ some (stamp, (user, tag))
  ]
]

-- The errors of a change of the password.
pub data PasswordError : Type 0 where
  wrong_old too_short not_saved : PasswordError

pub data Changed : Type 0 where
  refused : PasswordError → Changed
  granted : Bytes → Changed

module _ (k : Crypto) where
  pub signature : Bytes → Bytes → ℤ → Bytes
  unfolding show_ℤ
  signature secret user exp = k.hex (k.hmac secret (user ++ b':' ∷ show_ℤ exp))

  pub signed_token : Bytes → Bytes → ℤ → Bytes
  unfolding signature show_ℤ
  signed_token secret user exp = show_ℤ exp ++ b'.' ∷ (user ++ b'.' ∷ signature secret user exp)

  pub token : ℕ → Admin → Bytes → Bytes
  unfolding signed_token expiry
  token now adm user = signed_token adm.secret user (expiry now adm)

  pub verify_parts : ℕ → Admin → Bytes × (Bytes × Bytes) → Option Bytes
  unfolding signature parse_int bytes_eq
  verify_parts now adm (stamp, (user, tag)) = elim (parse_int stamp) [
    | none ↦ none
    | some exp ↦
        if ltb_ℤ exp (pos (unix now))
        then none
        else if bytes_eq (signature adm.secret user exp) tag
        then some user
        else none
  ]

  -- The user of a token, `none` where it is not valid.
  pub verify : ℕ → Admin → Bytes → Option Bytes
  unfolding split_token verify_parts
  verify now adm t =
      if is_empty t
      then none
      else elim (split_token t) [ none ↦ none | some parts ↦ verify_parts now adm parts ]

  pub login : ℕ → Admin → Bytes → Bytes → Option Bytes
  unfolding token verify_password bytes_eq
  login now adm user pass =
      if not (bytes_eq user adm.username)
      then none
      else if not (verify_password k pass adm.pass_hash)
      then none
      else some (token now adm user)

  module _ (c : Codec) (stable_sort : (Route → Route → Bool) → List Route → List Route) where
    -- What `ChangePassword` makes of the copy of the configuration.
    abbrev pub set_password : Bytes → Bytes → Config → Config × Bool
    set_password user hash cfg =
        (record cfg { admin = record cfg.admin { username = user; pass_hash = hash } }, true)

    -- The end of `ChangePassword`: the token comes from the configuration that is then in force.
    abbrev pub changed : ℕ → Bytes → Store × Bool → Store × Changed
    changed now user (s, true) = (s, granted (token now s.cfg.admin user))
    changed now user (s, false) = (s, refused not_saved)

    pub change_password : Env → ℕ → Option Bytes → Bytes → Bytes → Store → Store × Changed
    unfolding hash_password verify_password
    change_password env now random old_pass new_pass s =
        let adm = s.cfg.admin in
        if not (verify_password k old_pass adm.pass_hash)
        then (s, refused wrong_old)
        else if ltb (length new_pass) 6
        then (s, refused too_short)
        else changed now adm.username (
            update c stable_sort env (set_password adm.username (hash_password k random new_pass))
              s)
