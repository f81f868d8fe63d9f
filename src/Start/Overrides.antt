-- ===== src/Start/Overrides.antt =====
-- What the flags and the environment do to the stored configuration, main.go.
use revproxy.Prelude.{
  ℕ, ◌≡◌, refl, sym, ap, ◌∙◌, inl, inr, Bool, true, false, ◌&&◌, not, List, none, some,
  if◌then◌else◌, arith, Bytes, codes, is_empty, Bool-cases,
}
use revproxy.Config.{Config, Route}
use revproxy.Config.Normalize.{or_default, normalize, normalize_listen, normalize_log}
use revproxy.Config.Store.{Codec, Store, Env, update, write_file, write_raw, commit, clone}
use revproxy.Start.{
  Flags, Environment, with_colon, set_addr, set_admin_addr, set_debug, change, override_addr,
  override_admin_addr, override_level, override,
}

-- Each configuration has a JSON text.
pub record HasText (k : Codec) : Type 0 where
  pub text : Config → Bytes
  pub written : (c : Config) → k.marshal c ≡ some (text c)

with_colon-ne : (p : Bytes) → is_empty p ≡ false → is_empty (with_colon p) ≡ false
unfolding with_colon
with_colon-ne p h = ground arith

module _ (k : Codec) (stable_sort : (Route → Route → Bool) → List Route → List Route)
    (json : HasText k) where
  -- The text of a configuration is read back as that configuration.
  abbrev pub ReadsBack : Store → Type 0
  ReadsBack s = k.unmarshal (json.text s.cfg) ≡ some s.cfg

  -- A change where the disk does its work.
  changed :
      (env : Env) (f : Config → Config) (s : Store)
      → env.fault ≡ none
      → ReadsBack s
      → let c =
          normalize stable_sort env.entropy env.now
            (record (f s.cfg) { updated_at = some env.now }) in
        ((change k stable_sort env f s).cfg ≡ c)
        × ((change k stable_sort env f s).disk.file ≡ k.marshal c)
  unfolding change update clone commit write_file write_raw
  changed env f s e back =
      let c =
        normalize stable_sort env.entropy env.now
          (record (f s.cfg) { updated_at = some env.now }) in
      ground (arith, json.written s.cfg, back, json.written c)

  -- The parts of a configuration that flags set, and whether the file holds it.
  abbrev pub Shows : Store → Bytes → Bytes → Bytes → Type 0
  Shows s addr admin_addr level =
      (s.cfg.listen.addr ≡ addr)
      × ((s.cfg.listen.admin_addr ≡ admin_addr) × (s.cfg.log.level ≡ level))

  changed-Shows :
      (env : Env) (f : Config → Config) (s : Store)
      → env.fault ≡ none
      → ReadsBack s
      → let t = change k stable_sort env f s in
        Shows t
          (or_default (codes ":8080") (f s.cfg).listen.addr)
          (f s.cfg).listen.admin_addr
          (or_default (codes "info") (f s.cfg).log.level)
        × (t.disk.file ≡ k.marshal t.cfg)
  unfolding normalize normalize_listen normalize_log
  changed-Shows env f s e back =
      let h = changed env f s e back in
      (
        (
          ap (λ (c : Config). c.listen.addr) h.0,
          (ap (λ (c : Config). c.listen.admin_addr) h.0, ap (λ (c : Config). c.log.level) h.0),
        ),
        h.1 ∙ ap k.marshal (sym h.0),
      )

  or_default_of : (d t : Bytes) → is_empty t ≡ false → or_default d t ≡ t
  or_default_of d t h = rw h refl

  -- A store with those parts, written to its file if `b`.
  abbrev Holds : Bool → Store → Bytes → Bytes → Bytes → Type 0
  Holds b s addr admin_addr level =
      Shows s addr admin_addr level × (b ≡ true → s.disk.file ≡ k.marshal s.cfg)

  -- A change that leaves address and level not empty.
  changed-Holds :
      (b : Bool) (env : Env) (f : Config → Config) (s : Store)
      → env.fault ≡ none
      → ReadsBack s
      → is_empty (f s.cfg).listen.addr ≡ false
      → is_empty (f s.cfg).log.level ≡ false
      → Holds b
          (change k stable_sort env f s)
          (f s.cfg).listen.addr
          (f s.cfg).listen.admin_addr
          (f s.cfg).log.level
  changed-Holds b env f s e back a l =
      let ((p, (q, r)), w) = changed-Shows env f s e back in
      ((p ∙ or_default_of _ _ a, (q, r ∙ or_default_of _ _ l)), λ _. w)

  -- The values that the flags and the environment ask for.
  abbrev pub wanted_addr : Flags → Environment → Bytes → Bytes
  wanted_addr f e old =
      if not (is_empty f.addr)
      then f.addr
      else if not (is_empty e.port)
      then with_colon e.port
      else old

  abbrev pub wanted_admin_addr : Flags → Bytes → Bytes
  wanted_admin_addr f old = if is_empty f.admin_addr then old else f.admin_addr

  abbrev pub wanted_level : Flags → Bytes → Bytes
  wanted_level f old = if f.debug then codes "debug" else old

  wanted_addr-ne :
      (f : Flags) (e : Environment) (old : Bytes)
      → is_empty old ≡ false
      → is_empty (wanted_addr f e old) ≡ false
  unfolding with_colon
  wanted_addr-ne f e old h = ground arith

  addr-Holds :
      (env : Env) (f : Flags) (e : Environment) (s : Store)
      → env.fault ≡ none
      → ReadsBack s
      → is_empty s.cfg.listen.addr ≡ false
      → is_empty s.cfg.log.level ≡ false
      → Holds
          (not (is_empty f.addr && is_empty e.port))
          (override_addr k stable_sort env f e s)
          (wanted_addr f e s.cfg.listen.addr)
          s.cfg.listen.admin_addr
          s.cfg.log.level
  unfolding override_addr set_addr with_colon
  addr-Holds env f e s fine back a l = elim (Bool-cases (is_empty f.addr)) [
    | inr p ↦ rw p (changed-Holds true env (set_addr f.addr) s fine back p l)
    | inl p ↦ elim (Bool-cases (is_empty e.port)) [
      | inr q ↦
          rw (p, q)
            (changed-Holds true env (set_addr (with_colon e.port)) s fine back
              (with_colon-ne e.port q) l)
      | inl q ↦ rw (p, q) ((refl, (refl, refl)), λ h. cc)
    ]
  ]

  admin_addr-Holds :
      (b : Bool) (env : Env) (f : Flags) (s : Store) (addr admin_addr level : Bytes)
      → env.fault ≡ none
      → ReadsBack s
      → is_empty addr ≡ false
      → is_empty level ≡ false
      → Holds b s addr admin_addr level
      → Holds
          (not (not b && is_empty f.admin_addr))
          (override_admin_addr k stable_sort env f s)
          addr
          (wanted_admin_addr f admin_addr)
          level
  unfolding override_admin_addr set_admin_addr
  admin_addr-Holds b env f s addr admin_addr level fine back a l ((p, (q, r)), w) =
      elim (Bool-cases (is_empty f.admin_addr)) [
        | inl e ↦ rw e ((p, (q, r)), λ h. w (ground arith))
        | inr e ↦
            (let c =
                changed-Holds true env (set_admin_addr f.admin_addr) s fine back (rw p a)
                  (rw r l) in
              rw e ((c.0.0 ∙ p, (c.0.1.0, c.0.1.1 ∙ r)), λ _. c.1 refl))
      ]

  level-Holds :
      (b : Bool) (env : Env) (f : Flags) (s : Store) (addr admin_addr level : Bytes)
      → env.fault ≡ none
      → ReadsBack s
      → is_empty addr ≡ false
      → is_empty level ≡ false
      → Holds b s addr admin_addr level
      → Holds
          (not (not b && not f.debug))
          (override_level k stable_sort env f s)
          addr
          admin_addr
          (wanted_level f level)
  unfolding override_level set_debug
  level-Holds b env f s addr admin_addr level fine back a l ((p, (q, r)), w) =
      elim (Bool-cases (f.debug)) [
        | inr e ↦ rw e ((p, (q, r)), λ h. w (ground arith))
        | inl e ↦
            (let c = changed-Holds true env set_debug s fine back (rw p a) refl in
              rw e ((c.0.0 ∙ p, (c.0.1.0 ∙ q, c.0.1.1)), λ _. c.1 refl))
      ]

  -- Nothing is asked for.
  abbrev pub asks_nothing : Flags → Environment → Bool
  asks_nothing f e = is_empty f.addr && (is_empty e.port && (is_empty f.admin_addr && not f.debug))

  -- On a store with an address and a log level, where the disk works, each configuration has a JSON
  -- text and each that is changed is read back from its own: after start-up the
  -- configuration in force has the address of the flag, or else that of the variable `PORT`,
  -- with a colon before a bare number, or else its own; so with the address of the administration
  -- server and the level `debug`; and if anything was asked for, the configuration file has
  -- that configuration too, so that the overrides outlive the run.
  pub override-Shows :
      (envs : ℕ → Env) (f : Flags) (e : Environment) (s : Store)
      → ((i : ℕ) → (envs i).fault ≡ none)
      → let s1 = override_addr k stable_sort (envs 0) f e s in
        let s2 = override_admin_addr k stable_sort (envs 1) f s1 in
        ReadsBack s
        → ReadsBack s1
        → ReadsBack s2
        → is_empty s.cfg.listen.addr ≡ false
        → is_empty s.cfg.log.level ≡ false
        → let t = override k stable_sort envs f e s in
          Shows t
            (wanted_addr f e s.cfg.listen.addr)
            (wanted_admin_addr f s.cfg.listen.admin_addr)
            (wanted_level f s.cfg.log.level)
          × (asks_nothing f e ≡ false → t.disk.file ≡ k.marshal t.cfg)
  unfolding override set_addr set_admin_addr set_debug with_colon
  override-Shows envs f e s fine b b1 b2 a l =
      let one = addr-Holds (envs 0) f e s (fine 0) b a l in
      let named = wanted_addr-ne f e s.cfg.listen.addr a in
      let two = admin_addr-Holds _ (envs 1) f _ _ _ _ (fine 1) b1 named l one in
      let (shows, written) = level-Holds _ (envs 2) f _ _ _ _ (fine 2) b2 named l two in
      (shows, λ h. written (ground arith))
