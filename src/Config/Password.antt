-- ===== src/Config/Password.antt =====
-- Password hashing in internal/config/config.go: salt and digest, in hexadecimal, with a colon between.
use revproxy.Prelude.{
  ℕ, zero, suc, ◌≡◌, ◌↔◌, refl, Bool, true, false, [], ◌∷◌, ◌++◌, Option, none, some, arith,
  if◌then◌else◌, ◌==◌, Bytes, codes, bytes_eq, bytes_eq_iff, has_byte,
}

-- HMAC-SHA256 with the key first, and hexadecimal output.
pub record Crypto : Type 0 where
  pub hmac : Bytes → Bytes → Bytes
  pub hex : Bytes → Bytes
  pub no_colon : (s : Bytes) → has_byte b':' (hex s) ≡ false
  pub no_dot : (s : Bytes) → has_byte b'.' (hex s) ≡ false

-- The text before and after the first such byte: strings.SplitN(s, sep, 2) where there is one.
unfoldable pub split_once : ℕ → Bytes → Option (Bytes × Bytes)
split_once b [] = none
split_once b (c ∷ s) =
    let rest = split_once b s in
    if c == b then some ([], s) else elim rest [ none ↦ none | some (l, r) ↦ some (c ∷ l, r) ]

pub split_once-append :
    (b : ℕ) (s t : Bytes) → has_byte b s ≡ false → split_once b (s ++ b ∷ t) ≡ some (s, t)
unfolding split_once has_byte
split_once-append b [] t h = ground arith
split_once-append b (c ∷ s) t h = ground (arith, split_once-append b s t)

pub split_once-none : (b : ℕ) (s : Bytes) → has_byte b s ≡ false → split_once b s ≡ none
unfolding split_once has_byte
split_once-none b [] h = refl
split_once-none b (c ∷ s) h = ground (arith, split_once-none b s)

module _ (k : Crypto) where
  -- The loop of `derive`.
  pub stretch : ℕ → Bytes → Bytes → Bytes
  stretch zero salt buf = buf
  stretch (suc rounds) salt buf = stretch rounds salt (k.hmac salt buf)

  unfoldable pub derive : Bytes → Bytes → Bytes
  unfolding stretch
  derive pass salt = k.hex (stretch 9999 salt (k.hmac salt pass))

  -- The salt is the hexadecimal text of 16 random bytes; with no source of randomness it is fixed.
  unfoldable pub salt_of : Option Bytes → Bytes
  salt_of (some random) = k.hex random
  salt_of none = codes "revproxysalt"

  unfoldable pub hash_password : Option Bytes → Bytes → Bytes
  unfolding salt_of
  hash_password random pass = salt_of random ++ b':' ∷ derive pass (salt_of random)

  unfoldable pub verify_password : Bytes → Bytes → Bool
  verify_password pass stored = elim (split_once b':' stored) [
    | none ↦ false
    | some (salt, digest) ↦ bytes_eq (derive pass salt) digest
  ]

  salt_of-no_colon : (random : Option Bytes) → has_byte b':' (salt_of random) ≡ false
  unfolding salt_of has_byte
  salt_of-no_colon (some random) = k.no_colon random
  salt_of-no_colon none = refl

  verify_password_salted :
      (salt pass given : Bytes)
      → has_byte b':' salt ≡ false
      → verify_password given (salt ++ b':' ∷ derive pass salt)
        ≡ bytes_eq (derive given salt) (derive pass salt)
  unfolding verify_password
  verify_password_salted salt pass given h =
      rw (split_once-append b':' salt (derive pass salt) h, verify_password)

  -- A stored hash accepts a password exactly when that password has the digest of the one that was
  -- hashed, under the salt that was drawn; so it accepts the password that was hashed.
  pub verify_password-hash_password :
      (random : Option Bytes) (pass given : Bytes)
      → (verify_password given (hash_password random pass) ≡ true)
        ↔ (derive given (salt_of random) ≡ derive pass (salt_of random))
  unfolding hash_password
  verify_password-hash_password random pass given =
      rw (verify_password_salted (salt_of random) pass given (salt_of-no_colon random))
        (bytes_eq_iff _ _)

  -- A stored text with no colon accepts no password.
  pub verify_password_malformed :
      (stored given : Bytes) → has_byte b':' stored ≡ false → verify_password given stored ≡ false
  unfolding verify_password
  verify_password_malformed stored given h = rw (split_once-none b':' stored h, verify_password)
