-- ===== src/Auth/Change.antt =====
-- What `ChangePassword` of internal/admin/auth.go does to the store and to the next login.
use revproxy.Prelude.{
  sym, ℕ, ◌≤◌, ◌≡◌, ◌⊎◌, inl, inr, refl, subst, arith, Bool, true, false, List, Option, some, ltb,
  length, Bytes, bytes_eq_refl, is_empty, Bool-cases,
}
use revproxy.Config.{Admin, Route}
use revproxy.Config.Normalize.{normalize, normalize_admin, or_default}
use revproxy.Config.Password.{
  Crypto, hash_password, verify_password, salt_of, verify_password-hash_password,
}
use revproxy.Config.Store.{Codec, Store, Env, update}
use revproxy.Config.Store.Atomic.{changed_to, update_atomic}
use revproxy.Auth.{
  PasswordError, refused, granted, wrong_old, too_short, not_saved, Changed, set_password, changed,
  change_password, token, login,
}
use revproxy.Auth.Session.{is_empty-append_cons}

or_default-given : (d s : Bytes) → is_empty s ≡ false → or_default d s ≡ s
or_default-given d s h = rw h refl

module _ (k : Crypto) where
  -- Whoever has the stored user name and a password of the stored hash gets a token.
  login_fits :
      (now : ℕ) (adm : Admin) (pass : Bytes)
      → verify_password k pass adm.pass_hash ≡ true
      → login k now adm adm.username pass ≡ some (token k now adm adm.username)
  unfolding login
  login_fits now adm pass h = rw (bytes_eq_refl adm.username, h) refl

  hash_password-nonempty :
      (random : Option Bytes) (pass : Bytes) → is_empty (hash_password k random pass) ≡ false
  unfolding hash_password
  hash_password-nonempty random pass = is_empty-append_cons (salt_of k random) _ b':'

  hash_password-fits :
      (random : Option Bytes) (pass : Bytes)
      → verify_password k pass (hash_password k random pass) ≡ true
  hash_password-fits random pass = (verify_password-hash_password k random pass pass).1 refl

module _ (k : Crypto) (c : Codec)
    (stable_sort : (Route → Route → Bool) → List Route → List Route) where
  -- A new password set in the copy survives the normal form, and so do the name and the secret.
  changed_to-admin :
      (env : Env) (s : Store) (hash : Bytes)
      → is_empty s.cfg.admin.username ≡ false
      → is_empty s.cfg.admin.secret ≡ false
      → is_empty hash ≡ false
      → let a : Admin =
          (changed_to c stable_sort env
            (set_password k c stable_sort s.cfg.admin.username hash)
            s).admin in
        (a.username ≡ s.cfg.admin.username)
        × ((a.pass_hash ≡ hash) × (a.secret ≡ s.cfg.admin.secret))
  unfolding normalize normalize_admin
  changed_to-admin env s hash u x h =
      (or_default-given _ _ u, (or_default-given _ _ h, or_default-given _ _ x))

  -- What a change of the password leaves behind; a login comes `later`.
  abbrev pub IsAnswered : ℕ → ℕ → Bytes → Bytes → Store → Store × Changed → Type 0
  IsAnswered now later old_pass new_pass s r =
      (((e : PasswordError) × (r.1 ≡ refused e))
        × ((r.0.cfg ≡ s.cfg) × (r.0.disk.file ≡ s.disk.file)))
      ⊎ ((r.1 ≡ granted (token k now r.0.cfg.admin s.cfg.admin.username))
          × ((verify_password k old_pass s.cfg.admin.pass_hash ≡ true)
              × ((6 ≤ length new_pass)
                  × ((r.0.cfg.admin.secret ≡ s.cfg.admin.secret)
                      × (login k later r.0.cfg.admin s.cfg.admin.username new_pass
                          ≡ some (token k later r.0.cfg.admin s.cfg.admin.username))))))

  changed-failed :
      (now later : ℕ) (old_pass new_pass : Bytes) (s : Store) (r : Store × Bool)
      → r.1 ≡ false
      → r.0.cfg ≡ s.cfg
      → r.0.disk.file ≡ s.disk.file
      → IsAnswered now later old_pass new_pass s
          (changed k c stable_sort now s.cfg.admin.username r)
  changed-failed now later old_pass new_pass s (t, true) e f g = cc
  changed-failed now later old_pass new_pass s (t, false) e f g = inl ((not_saved, refl), (f, g))

  changed-fine :
      (now later : ℕ) (old_pass new_pass : Bytes) (s : Store) (r : Store × Bool)
      → verify_password k old_pass s.cfg.admin.pass_hash ≡ true
      → 6 ≤ length new_pass
      → r.1 ≡ true
      → r.0.cfg.admin.username ≡ s.cfg.admin.username
      → verify_password k new_pass r.0.cfg.admin.pass_hash ≡ true
      → r.0.cfg.admin.secret ≡ s.cfg.admin.secret
      → IsAnswered now later old_pass new_pass s
          (changed k c stable_sort now s.cfg.admin.username r)
  changed-fine now later old_pass new_pass s (t, false) good long e name hash secret = cc
  changed-fine now later old_pass new_pass s (t, true) good long e name hash secret = inr (
    refl,
    (
      good,
      (
        long,
        (
          secret,
          subst
              (λ (user : Bytes).
                login k later t.cfg.admin user new_pass ≡ some (token k later t.cfg.admin user))
              name (login_fits k later t.cfg.admin new_pass hash),
        ),
      ),
    ),
  )

  change_password-fine :
      (env : Env) (now : ℕ) (random : Option Bytes) (old_pass new_pass : Bytes) (s : Store)
      → verify_password k old_pass s.cfg.admin.pass_hash ≡ true
      → ltb (length new_pass) 6 ≡ false
      → changed k c stable_sort now s.cfg.admin.username (
          update c stable_sort env
            (set_password k c stable_sort s.cfg.admin.username (hash_password k random new_pass))
            s)
        ≡ change_password k c stable_sort env now random old_pass new_pass s
  unfolding change_password
  change_password-fine env now random old_pass new_pass s good long = rw (good, long) refl

  -- `ChangePassword` on a configuration that its JSON text preserves and that has a user name and a
  -- secret: it refuses and leaves the configuration and its file alone, or it answers with a token,
  -- the old password was right, the new one has six bytes or more, the secret stays, and the stored
  -- user can log in with the new password from then on.
  pub change_password-IsAnswered :
      (env : Env) (now later : ℕ) (random : Option Bytes) (old_pass new_pass : Bytes) (s : Store)
      (raw : Bytes)
      → c.marshal s.cfg ≡ some raw
      → c.unmarshal raw ≡ some s.cfg
      → is_empty s.cfg.admin.username ≡ false
      → is_empty s.cfg.admin.secret ≡ false
      → IsAnswered now later old_pass new_pass s
          (change_password k c stable_sort env now random old_pass new_pass s)
  unfolding change_password
  change_password-IsAnswered env now later random old_pass new_pass s raw e f u x =
      let user = s.cfg.admin.username in
      let hash = hash_password k random new_pass in
      let r = update c stable_sort env (set_password k c stable_sort user hash) s in
      elim (Bool-cases (verify_password k old_pass s.cfg.admin.pass_hash)) [
        | inr bad ↦ rw bad (inl ((wrong_old, refl), (refl, refl)))
        | inl good ↦ elim (Bool-cases (ltb (length new_pass) 6)) [
          | inl short ↦ rw (good, short) (inl ((too_short, refl), (refl, refl)))
          | inr long ↦
              subst (IsAnswered now later old_pass new_pass s)
                (change_password-fine env now random old_pass new_pass s good long)
                (elim (update_atomic c stable_sort env (set_password k c stable_sort user hash) s
                  raw e f) [
                    | inl (failed, (same, file, _)) ↦
                        changed-failed now later old_pass new_pass s r failed same file
                    | inr (fine, _, now_cfg, _, _) ↦
                        let (name, (kept, secret)) =
                          changed_to-admin env s hash u x
                            (hash_password-nonempty k random new_pass) in
                        changed-fine now later old_pass new_pass s r good (ground arith) fine
                          (rw now_cfg name)
                          (rw now_cfg (rw kept (hash_password-fits k random new_pass)))
                          (rw now_cfg secret)
                  ])
        ]
      ]

  changed-store :
      (now : ℕ) (user : Bytes) (r : Store × Bool) → (changed k c stable_sort now user r).0 ≡ r.0
  changed-store now user (s, true) = refl
  changed-store now user (s, false) = refl

  -- What holds of a store and of what an update makes of it holds after a change of the password.
  pub change_password-store :
      (P : Store → Type 0) (env : Env) (now : ℕ) (random : Option Bytes) (old_pass new_pass : Bytes)
      (s : Store)
      → P s
      → P
          (update c stable_sort env
            (set_password k c stable_sort s.cfg.admin.username (hash_password k random new_pass))
            s).0
      → P (change_password k c stable_sort env now random old_pass new_pass s).0
  unfolding change_password
  change_password-store P env now random old_pass new_pass s h u =
      elim (Bool-cases (verify_password k old_pass s.cfg.admin.pass_hash)) [
        | inr bad ↦ rw (change_password, bad) h
        | inl good ↦ elim (Bool-cases (ltb (length new_pass) 6)) [
          | inl short ↦ rw (change_password, good, short) h
          | inr long ↦
              rw (change_password, good, long)
                (subst P (sym (changed-store now s.cfg.admin.username _)) u)
        ]
      ]
