-- ===== src/Reload/Complete.antt =====
-- What `Reload` of internal/proxy/engine.go makes of a configuration it has no complaint about, and how
-- the pools it makes choose.
use mathlib.Core.Option.{some-injective}
use revproxy.Prelude.{
  ℕ, zero, suc, ◌+◌, ◌*◌, ◌^◌, ◌<◌, ◌≡◌, ◌≢◌, refl, Bool, ◌&&◌, not, List, [], ◌∷◌, ◌++◌, Option,
  some, arith, Bytes, get_elem?, Bool-cases, inl, inr, ap, subst, ◌∙◌,
}
use revproxy.Config.{Config, Route}
use revproxy.Backend.{Url, Backend}
use revproxy.Access.{Net}
use revproxy.Pool.Weighted.{sum_weights}
use revproxy.Pool.Fairness.{IsFresh, IsServed, rounds, rounds_fair}
use revproxy.Serve.{Handler, Engine}
use revproxy.Reload.{
  build_nodes, or_dynamic, with_nodes, build_route, add_handler, after, build_routes, reload_engine,
  no_elements, is_dynamic, make_handler, ReloadError,
}
use revproxy.Reload.Built.{Nodes, IsBuilt, Handlers, reload_engine-Handlers}

Nodes-IsFresh : (lo hi : ℕ) (bs : List Backend) → Nodes lo hi bs → IsFresh bs
Nodes-IsFresh lo hi [] v = tt
Nodes-IsFresh lo hi (b ∷ bs) (new, (_, (_, rest))) =
    (new.cursor, new.not_negative, Nodes-IsFresh (b.key + 1) hi bs rest)

Nodes-positive : (lo hi : ℕ) (bs : List Backend) → Nodes lo hi bs → bs ≢ [] → 0 < sum_weights bs
Nodes-positive lo hi [] v h = absurd (h refl)
Nodes-positive lo hi (b ∷ bs) (new, _) h = omega (arith, new.positive)

nil-append : (xs ys : List ReloadError) → xs ++ ys ≡ [] → (xs ≡ []) × (ys ≡ [])
nil-append [] ys e = (refl, e)
nil-append (x ∷ xs) ys e = cc

module _ (n : Net) where
  pub Handlers-at :
      (hs : List (Handler n)) (i lo : ℕ) (h : Handler n)
      → Handlers n lo hs
      → get_elem? hs i ≡ some h
      → IsBuilt n h
  Handlers-at [] i lo h v e = cc
  Handlers-at (x ∷ hs) zero lo h (_, (b, _)) e = subst (IsBuilt n) (some-injective x h e) b
  Handlers-at (x ∷ hs) (suc i) lo h (_, (_, r)) e = Handlers-at hs i _ h r e

module _ (n : Net) (parse_url : Bytes → Option Url) (compiles : Bytes → Bool) (cfg : Config) where
  -- The routes of the handlers.
  abbrev pub routes_of : List (Handler n) → List Route
  routes_of [] = []
  routes_of (h ∷ hs) = h.matcher.cfg ∷ routes_of hs

  with_nodes-routes_of :
      (key : ℕ) (rc : Route) (found : List Backend × ℕ) (hs : List (Handler n))
      → (with_nodes n parse_url compiles cfg rc key found).1 ≡ []
      → routes_of (
          add_handler n parse_url compiles cfg
            (with_nodes n parse_url compiles cfg rc key found).0
            hs)
        ≡ rc ∷ routes_of hs
  unfolding with_nodes make_handler
  with_nodes-routes_of key rc ([], errors) hs e = cc
  with_nodes-routes_of key rc (b ∷ bs, errors) hs e = refl

  build_route-routes_of :
      (key : ℕ) (rc : Route) (hs : List (Handler n))
      → (build_route n parse_url compiles cfg key rc).1 ≡ []
      → routes_of
          (add_handler n parse_url compiles cfg (build_route n parse_url compiles cfg key rc).0 hs)
        ≡ rc ∷ routes_of hs
  unfolding build_route
  build_route-routes_of key rc hs e =
      elim (Bool-cases (no_elements rc.backends && not (is_dynamic rc))) [
        | inl bare ↦ absurd (cc)
        | inr fine ↦ rw fine (
            with_nodes-routes_of key rc
              (or_dynamic n parse_url compiles cfg rc (key + 1)
                (build_nodes n parse_url compiles cfg rc (key + 1) rc.backends))
              hs (rw fine at e))
      ]

  build_routes-routes_of :
      (key : ℕ) (rcs : List Route)
      → (build_routes n parse_url compiles cfg key rcs).1 ≡ []
      → routes_of (build_routes n parse_url compiles cfg key rcs).0 ≡ rcs
  unfolding build_routes
  build_routes-routes_of key [] e = refl
  build_routes-routes_of key (rc ∷ rcs) e =
      let (mine, later) = nil-append (build_route n parse_url compiles cfg key rc).1 _ e in
      build_route-routes_of key rc _ mine
      ∙ ap (λ (t : List Route). rc ∷ t) (build_routes-routes_of (after key rc) rcs later)

  -- When `Reload` returns no error, the engine has one handler for each route of the configuration,
  -- in the order of the configuration.
  pub reload_engine-routes_of :
      (fresh : ℕ) (e : Engine n)
      → (reload_engine n parse_url compiles cfg fresh e).2 ≡ []
      → routes_of (reload_engine n parse_url compiles cfg fresh e).0.handlers ≡ cfg.routes
  unfolding reload_engine
  reload_engine-routes_of fresh e fine = build_routes-routes_of fresh cfg.routes fine

  -- In the pool of every handler that `Reload` makes, where the square of the total weight is below
  -- 2 ^ 62, as many weighted rounds over all its nodes as the total weight choose each node exactly as
  -- often as its weight says and leave the nodes as they were.
  pub reload_engine_fair :
      (fresh : ℕ) (e : Engine n) (i : ℕ) (h : Handler n)
      → get_elem? (reload_engine n parse_url compiles cfg fresh e).0.handlers i ≡ some h
      → sum_weights h.pool.backends * sum_weights h.pool.backends < 2 ^ 62
      → IsServed (rounds (sum_weights h.pool.backends) h.pool.backends).1 0 h.pool.backends
        × ((rounds (sum_weights h.pool.backends) h.pool.backends).0 ≡ h.pool.backends)
  reload_engine_fair fresh e i h place small =
      let (some_node, (_, nodes)) =
        Handlers-at n _ i fresh h (reload_engine-Handlers n parse_url compiles cfg fresh e) place in
      rounds_fair h.pool.backends (Nodes-IsFresh _ _ _ nodes) (Nodes-positive _ _ _ nodes some_node)
        small
