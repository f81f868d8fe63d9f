-- ===== src/Admin/Changes.antt =====
-- What a change through the administration API of internal/admin/server.go leaves behind.
use mathlib.Core.List.{Mem, mem-cons, not-mem-nil, mem-cons_self, mem-cons_of_mem}
use mathlib.Core.List.Perm
use mathlib.Core.Logic.Or
use revproxy.Prelude.{
  ℕ, ◌+◌, ◌≡◌, refl, sym, ap, subst, ◌∙◌, arith, Bool, true, false, ◌||◌, not, List, [], ◌∷◌, none,
  some, Bytes, codes, bytes_eq, bytes_eq_refl, is_empty, Bool-cases, inl, inr,
}
use revproxy.Config.{Config, Route, route_by_id}
use revproxy.Config.Password.{hash_password}
use revproxy.Config.Normalize.{
  normalize, normalize_routes, normalize_route, normalize_admin, normalize_listen, or_default,
  route_less,
}
use revproxy.Config.Normalize.Defaults.{Permutes}
use revproxy.Config.Store.Announced.{update-saved}
use revproxy.Reload.{reload_engine, ReloadError}
use revproxy.Admin.{
  Tools, Call, Reply, World, SettingsBody, ok, nothing, done, saved_settings, save, apply,
  or_errors, apply_loudly, apply_quietly, then_finish, then_found, copied,
}
use revproxy.Admin.Routes.{remove_route, without_route, has_route, delete_route}
use revproxy.Admin.Settings.{
  import_config, take_import, put_config, take_config, put_settings, take_settings, need_restart,
}

abbrev pub HasIds : List Route → Type 0
HasIds [] = Unit {0}
HasIds (r ∷ rs) = (is_empty r.id ≡ false) × HasIds rs

id-normalize_route :
    (digits : Bytes) (now : ℕ) (r : Route)
    → is_empty r.id ≡ false
    → (normalize_route digits now r).id ≡ r.id
unfolding normalize_route
id-normalize_route digits now r h = rw h refl

head_or_rest :
    (id : Bytes) (r x : Route) (ys : List Route)
    → bytes_eq x.id id ≡ false
    → (Mem r ys → bytes_eq r.id id ≡ false)
    → Mem r (x ∷ ys)
    → bytes_eq r.id id ≡ false
head_or_rest id r x ys h k m =
    let path : IsProp (bytes_eq r.id id ≡ false) = hlevel in
    Or.elim path (mem-cons.0 m) (λ e. subst (λ (y : Route). bytes_eq y.id id ≡ false) (sym e) h) k

others :
    (digits : ℕ → Bytes) (now i : ℕ) (id : Bytes) (rs : List Route) (r : Route)
    → HasIds rs
    → Mem r (normalize_routes digits now i (without_route id rs))
    → bytes_eq r.id id ≡ false
unfolding normalize_routes without_route
others digits now i id [] r h m = absurd (not-mem-nil m)
others digits now i id (x ∷ rs) r (named, h) m = elim (Bool-cases (bytes_eq x.id id)) [
  | inl gone ↦ others digits now i id rs r h (rw gone at m)
  | inr stays ↦
      let cut : Mem r (
          normalize_route (digits i) now x
          ∷ normalize_routes digits now (i + 1) (without_route id rs)) =
        rw stays at m in
      head_or_rest id r (normalize_route (digits i) now x) _
        (subst (λ (y : Bytes). bytes_eq y id ≡ false)
          (sym (id-normalize_route (digits i) now x named)) stays)
        (others digits now (i + 1) id rs r h) cut
]

route_by_id-none :
    (id : Bytes) (rs : List Route)
    → ((r : Route) → Mem r rs → bytes_eq r.id id ≡ false)
    → route_by_id id rs ≡ none
unfolding route_by_id
route_by_id-none id [] h = refl
route_by_id-none id (r ∷ rs) h =
    rw (h r mem-cons_self, route_by_id-none id rs (λ x m. h x (mem-cons_of_mem r m))) refl

restart_by :
    (addr admin_addr : Bytes)
    → (not (bytes_eq (or_default (codes ":8080") addr) addr)
        || not (bytes_eq admin_addr admin_addr))
      ≡ is_empty addr
unfolding bytes_eq
restart_by [] admin_addr = refl
restart_by (c ∷ s) admin_addr = rw (bytes_eq_refl (c ∷ s), bytes_eq_refl admin_addr) refl

module _ (t : Tools) where
  -- What the reply 200 says of an update by id.
  abbrev IsTaken : Bool → World t × Bool → World t → Type 0
  IsTaken found r v =
      (found ≡ true)
      × ((r.1 ≡ true) × ((v.store.cfg ≡ r.0.store.cfg) × (v.engine.cfg ≡ r.0.store.cfg)))

  then_found-IsTaken :
      (found : Bool) (r : World t × Bool)
      → (then_found t found (apply_quietly t (ok nothing)) r).1.status ≡ 200
      → IsTaken found r (then_found t found (apply_quietly t (ok nothing)) r).0
  unfolding then_found then_finish apply_quietly apply reload_engine
  then_found-IsTaken true (w, true) e = (refl, (refl, (refl, refl)))
  then_found-IsTaken true (w, false) e = absurd (omega (arith, e))
  then_found-IsTaken false (w, true) e = absurd (omega (arith, e))
  then_found-IsTaken false (w, false) e = absurd (omega (arith, e))

  gone :
      (permutes : Permutes t.stable_sort) (call : Call) (w : World t) (id : Bytes)
      → HasIds (copied t w).routes
      → route_by_id id
          (normalize t.stable_sort call.env.entropy call.env.now
            (record (delete_route id (copied t w)).0 { updated_at = some call.env.now })).routes
        ≡ none
  unfolding normalize delete_route
  gone permutes call w id ids = route_by_id-none id _ (λ r m.
      others call.env.entropy.route_digits call.env.now 0 id (copied t w).routes r ids
        ((Perm.mem_iff (permutes route_less _)).0 m))

  -- Where the sort only permutes and every route of the copied configuration has an id: when the
  -- deletion of a route is answered with status 200, the route was there, the configuration in force
  -- has no route with that id, and the engine has that configuration.
  pub remove_route-gone :
      (permutes : Permutes t.stable_sort) (call : Call) (w : World t) (id : Bytes)
      → HasIds (copied t w).routes
      → (remove_route t call w id).1.status ≡ 200
      → (has_route id (copied t w) ≡ true)
        × ((route_by_id id (remove_route t call w id).0.store.cfg.routes ≡ none)
            × ((remove_route t call w id).0.engine.cfg ≡ (remove_route t call w id).0.store.cfg))
  unfolding remove_route save
  remove_route-gone permutes call w id ids e =
      let r = save t call.env (delete_route id) w in
      let (found, (saved, (store, engine))) = then_found-IsTaken (has_route id (copied t w)) r e in
      let cfg =
        ap (λ (c : Config). route_by_id id c.routes)
          (store ∙ update-saved t.codec t.stable_sort call.env (delete_route id) w.store saved) in
      (found, (cfg ∙ gone permutes call w id ids, engine ∙ sym store))

  or_errors-saved :
      (asked flag : Bool) (r : World t × List ReloadError)
      → (or_errors t (ok (saved_settings asked)) r).1.payload ≡ saved_settings flag
      → flag ≡ asked
  unfolding or_errors
  or_errors-saved asked flag (w, []) e = cc
  or_errors-saved asked flag (w, x ∷ xs) e = cc

  then_finish-saved :
      (ask : World t → Bool) (flag : Bool) (r : World t × Bool)
      → (then_finish t (λ v. apply_loudly t (ok (saved_settings (ask v))) v) r).1.payload
        ≡ saved_settings flag
      → (r.1 ≡ true) × (flag ≡ ask r.0)
  unfolding then_finish apply_loudly
  then_finish-saved ask flag (w, true) e = (refl, or_errors-saved (ask w) flag _ e)
  then_finish-saved ask flag (w, false) e = cc

  listen_after :
      (call : Call) (b : SettingsBody) (c : Config)
      → need_restart
          (normalize t.stable_sort call.env.entropy call.env.now
            (record (take_settings b c).0 { updated_at = some call.env.now })).listen
          b.listen
        ≡ is_empty b.listen.addr
  unfolding normalize normalize_listen need_restart take_settings
  listen_after call b c = restart_by b.listen.addr b.listen.admin_addr

  -- When the settings are saved, the flag in the reply that a restart is needed says only whether the
  -- new address of the proxy is empty, whatever the addresses were before.
  pub put_settings-restart :
      (call : Call) (w : World t) (b : SettingsBody) (flag : Bool)
      → (put_settings t call w (some b)).1.payload ≡ saved_settings flag
      → flag ≡ is_empty b.listen.addr
  unfolding put_settings save
  put_settings-restart call w b flag e =
      let r = save t call.env (take_settings b) w in
      let (saved, asked) =
        then_finish-saved (λ v. need_restart v.store.cfg.listen b.listen) flag r e in
      asked
      ∙ ap (λ (c : Config). need_restart c.listen b.listen)
          (update-saved t.codec t.stable_sort call.env (take_settings b) w.store saved)
      ∙ listen_after call b (copied t w)

  or_errors-cfg :
      (reply : Reply) (r : World t × List ReloadError)
      → (or_errors t reply r).0.store.cfg ≡ r.0.store.cfg
  unfolding or_errors
  or_errors-cfg reply (w, []) = refl
  or_errors-cfg reply (w, x ∷ xs) = refl

  then_finish-done :
      (r : World t × Bool)
      → (then_finish t (apply_loudly t (ok done)) r).1.status ≡ 200
      → (r.1 ≡ true) × ((then_finish t (apply_loudly t (ok done)) r).0.store.cfg ≡ r.0.store.cfg)
  unfolding then_finish apply_loudly apply
  then_finish-done (w, true) e = (refl, or_errors-cfg (ok done) _)
  then_finish-done (w, false) e = absurd (omega (arith, e))

  import_config-admin :
      (call : Call) (w : World t) (text : Bytes) (given : Config)
      → t.codec.unmarshal text ≡ some given
      → (import_config t call w (some text)).1.status ≡ 200
      → (import_config t call w (some text)).0.store.cfg.admin
        ≡ normalize_admin call.env.entropy given.admin
  unfolding import_config save normalize take_import
  import_config-admin call w text given f e =
      let r = save t call.env (take_import given) w in
      let same : then_finish t (apply_loudly t (ok done)) r ≡ import_config t call w (some text) =
        rw (import_config, f) refl in
      let (saved, cfg) = then_finish-done r (rw (sym same) at e) in
      ap (λ (x : World t × Reply). x.0.store.cfg.admin) (sym same)
      ∙ ap (λ (c : Config). c.admin)
          (cfg ∙ update-saved t.codec t.stable_sort call.env (take_import given) w.store saved)

  put_config-admin :
      (call : Call) (w : World t) (given : Config)
      → (put_config t call w (some given)).1.status ≡ 200
      → (put_config t call w (some given)).0.store.cfg.admin
        ≡ normalize_admin call.env.entropy (take_config w.store.cfg given (copied t w)).0.admin
  unfolding put_config save normalize
  put_config-admin call w given e =
      let r = save t call.env (take_config w.store.cfg given) w in
      let (saved, cfg) = then_finish-done r e in
      ap (λ (c : Config). c.admin)
        (cfg
          ∙ update-saved t.codec t.stable_sort call.env (take_config w.store.cfg given) w.store
              saved)

  -- A configuration with no password and no secret, taken in successfully by both ways, where the one in
  -- force has both: `PUT config` keeps the password and the secret, and `import` replaces them by the
  -- hash of the initial password `admin123`, with the salt that was drawn, and a new secret.
  pub import_config-resets :
      (call : Call) (w : World t) (text : Bytes) (given : Config)
      → t.codec.unmarshal text ≡ some given
      → is_empty given.admin.pass_hash ≡ true
      → is_empty given.admin.secret ≡ true
      → is_empty w.store.cfg.admin.pass_hash ≡ false
      → is_empty w.store.cfg.admin.secret ≡ false
      → (put_config t call w (some given)).1.status ≡ 200
      → (import_config t call w (some text)).1.status ≡ 200
      → (((put_config t call w (some given)).0.store.cfg.admin.pass_hash
            ≡ w.store.cfg.admin.pass_hash)
          × ((put_config t call w (some given)).0.store.cfg.admin.secret
              ≡ w.store.cfg.admin.secret))
        × (((import_config t call w (some text)).0.store.cfg.admin.pass_hash
              ≡ hash_password call.env.entropy.crypto call.env.entropy.salt (codes "admin123"))
            × ((import_config t call w (some text)).0.store.cfg.admin.secret
                ≡ call.env.entropy.secret))
  unfolding normalize_admin take_config
  import_config-resets call w text given f h x old_hash old_secret put import =
      let put_admin = put_config-admin call w given put in
      let import_admin = import_config-admin call w text given f import in
      (
        (rw (put_admin, h, old_hash) refl, rw (put_admin, old_secret) refl),
        (rw (import_admin, h) refl, rw (import_admin, x) refl),
      )
