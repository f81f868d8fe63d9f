-- ===== src/Reload/Built.antt =====
-- What every handler is like after `Reload` of internal/proxy/engine.go.
use revproxy.Prelude.{
  ℕ, ◌+◌, ◌≤◌, ◌<◌, ◌≡◌, ◌≢◌, refl, Bool, ◌&&◌, not, List, [], ◌∷◌, Option, none, some, arith,
  Bytes, length, Bool-cases, inl, inr, subst, sym,
}
use mathlib.Core.Option.{some-injective}
use mathlib.Core.List.{cons≢nil}
use revproxy.Config.{Config, Route, BackendConfig}
use revproxy.Backend.{Url, Backend}
use revproxy.Backend.Fresh.{IsNew, new_backend-IsNew}
use revproxy.Access.{Net}
use revproxy.Pool.{new_pool}
use revproxy.Serve.{Handler, Engine}
use revproxy.Reload.{
  node_proxy, dynamic_node, no_elements, is_dynamic, build_node, build_nodes, or_dynamic,
  make_handler, with_nodes, build_route, add_handler, after, build_routes, reload_engine,
}

-- New nodes at ascending addresses, from `lo` on and below `hi`.
abbrev pub Nodes : ℕ → ℕ → List Backend → Type 0
Nodes lo hi [] = Unit {0}
Nodes lo hi (b ∷ bs) = IsNew b.key b × ((lo ≤ b.key) × ((b.key < hi) × Nodes (b.key + 1) hi bs))

Nodes-weaken : (lo lo' hi : ℕ) (bs : List Backend) → lo ≤ lo' → Nodes lo' hi bs → Nodes lo hi bs
Nodes-weaken lo lo' hi [] h v = tt
Nodes-weaken lo lo' hi (b ∷ bs) h (v, (l, (u, r))) = (v, (omega arith, (u, r)))

-- Built handlers and their addresses, which are all different.
module _ (n : Net) where
  -- A handler has a pool of new nodes, whose addresses follow its own.
  abbrev pub IsBuilt : Handler n → Type 0
  IsBuilt h =
      (h.pool.backends ≢ [])
      × ((h.pool.rr ≡ 0)
          × Nodes (h.matcher.key + 1) (after h.matcher.key h.matcher.cfg) h.pool.backends)

  abbrev pub Handlers : ℕ → List (Handler n) → Type 0
  Handlers lo [] = Unit {0}
  Handlers lo (h ∷ hs) =
      (lo ≤ h.matcher.key) × (IsBuilt h × Handlers (after h.matcher.key h.matcher.cfg) hs)

  Handlers-weaken :
      (lo lo' : ℕ) (hs : List (Handler n)) → lo ≤ lo' → Handlers lo' hs → Handlers lo hs
  Handlers-weaken lo lo' [] h v = tt
  Handlers-weaken lo lo' (x ∷ hs) h (l, r) = (omega arith, r)

module _ (n : Net) (parse_url : Bytes → Option Url) (compiles : Bytes → Bool) (cfg : Config) where
  build_node-IsNew :
      (pid : Bytes) (key : ℕ) (c : BackendConfig) (b : Backend)
      → build_node n parse_url compiles cfg pid key c ≡ some b
      → IsNew key b
  unfolding build_node
  build_node-IsNew pid key c b e = new_backend-IsNew _ _ key c b e

  cons_node :
      (key hi : ℕ) (o : Option Backend) (found : List Backend × ℕ)
      → ((b : Backend) → o ≡ some b → IsNew key b)
      → key < hi
      → Nodes (key + 1) hi found.0
      → Nodes key hi (
          let y : List Backend × ℕ = elim o [
            | none ↦ (found.0, found.1 + 1)
            | some x ↦ (x ∷ found.0, found.1)
          ] in
          y.0)
  cons_node key hi none found new h v = Nodes-weaken key (key + 1) hi _ (omega arith) v
  cons_node key hi (some x) found new h v =
      let fresh = new x refl in
      let same : x.key ≡ key = fresh.place in
      (
        subst (λ (k : ℕ). IsNew k x) (sym same) fresh,
        (
          omega (arith, same),
          (omega (arith, same), subst (λ (k : ℕ). Nodes (k + 1) hi found.0) (sym same) v),
        ),
      )

  build_nodes-Nodes :
      (rc : Route) (key hi : ℕ) (bs : List BackendConfig)
      → key + length bs ≤ hi
      → Nodes key hi (build_nodes n parse_url compiles cfg rc key bs).0
  unfolding build_nodes
  build_nodes-Nodes rc key hi [] h = tt
  build_nodes-Nodes rc key hi (b ∷ bs) h =
      cons_node key hi (build_node n parse_url compiles cfg (node_proxy rc b) key b) _
        (build_node-IsNew (node_proxy rc b) key b) (omega arith)
        (build_nodes-Nodes rc (key + 1) hi bs (omega arith))

  or_dynamic-Nodes :
      (rc : Route) (key hi : ℕ) (found : List Backend × ℕ)
      → key < hi
      → Nodes key hi found.0
      → Nodes key hi (or_dynamic n parse_url compiles cfg rc key found).0
  unfolding or_dynamic
  or_dynamic-Nodes rc key hi ([], errors) h v = elim (Bool-cases (is_dynamic rc)) [
    | inl on ↦ rw on (
        cons_node key hi (build_node n parse_url compiles cfg rc.proxy_id key dynamic_node)
          ([], errors) (build_node-IsNew rc.proxy_id key dynamic_node) h tt)
    | inr off ↦ rw off tt
  ]
  or_dynamic-Nodes rc key hi (b ∷ bs, errors) h v = v

  with_nodes-IsBuilt :
      (rc : Route) (key : ℕ) (found : List Backend × ℕ) (h : Handler n)
      → Nodes (key + 1) (after key rc) found.0
      → (with_nodes n parse_url compiles cfg rc key found).0 ≡ some h
      → (h.matcher.key ≡ key) × ((h.matcher.cfg ≡ rc) × IsBuilt n h)
  unfolding with_nodes make_handler new_pool
  with_nodes-IsBuilt rc key ([], errors) h v e = cc
  with_nodes-IsBuilt rc key (b ∷ bs, errors) h v e =
      subst (λ (g : Handler n). (g.matcher.key ≡ key) × ((g.matcher.cfg ≡ rc) × IsBuilt n g))
        (some-injective (make_handler n parse_url compiles cfg rc key (b ∷ bs)) h e)
        (refl, (refl, (cons≢nil, (refl, v))))

  build_route-IsBuilt :
      (key : ℕ) (rc : Route) (h : Handler n)
      → (build_route n parse_url compiles cfg key rc).0 ≡ some h
      → (h.matcher.key ≡ key) × ((h.matcher.cfg ≡ rc) × IsBuilt n h)
  unfolding build_route
  build_route-IsBuilt key rc h e =
      elim (Bool-cases (no_elements rc.backends && not (is_dynamic rc))) [
        | inl bare ↦ cc
        | inr fine ↦
            with_nodes-IsBuilt rc key
              (or_dynamic n parse_url compiles cfg rc (key + 1)
                (build_nodes n parse_url compiles cfg rc (key + 1) rc.backends))
              h
              (or_dynamic-Nodes rc (key + 1) (after key rc) _ (omega arith)
                (build_nodes-Nodes rc (key + 1) (after key rc) rc.backends (omega arith)))
              (rw fine at e)
      ]

  add_handler-Handlers :
      (key : ℕ) (rc : Route) (o : Option (Handler n)) (hs : List (Handler n))
      → ((h : Handler n)
          → o ≡ some h
          → (h.matcher.key ≡ key) × ((h.matcher.cfg ≡ rc) × IsBuilt n h))
      → Handlers n (after key rc) hs
      → Handlers n key (add_handler n parse_url compiles cfg o hs)
  add_handler-Handlers key rc none hs built v =
      Handlers-weaken n key (after key rc) hs (omega arith) v
  add_handler-Handlers key rc (some h) hs built v =
      let (place, (same, b)) = built h refl in (omega (arith, place), (b, rw (place, same) v))

  build_routes-Handlers :
      (key : ℕ) (rcs : List Route)
      → Handlers n key (build_routes n parse_url compiles cfg key rcs).0
  unfolding build_routes
  build_routes-Handlers key [] = tt
  build_routes-Handlers key (rc ∷ rcs) =
      add_handler-Handlers key rc _ _ (build_route-IsBuilt key rc)
        (build_routes-Handlers (after key rc) rcs)

  -- After `Reload` every handler has at least one node; its nodes are up and idle, with weights from
  -- 1 on, no failures and cursors at zero; and all handlers and nodes stand at addresses of their own,
  -- in ascending order from the first free one.
  pub reload_engine-Handlers :
      (fresh : ℕ) (e : Engine n)
      → Handlers n fresh (reload_engine n parse_url compiles cfg fresh e).0.handlers
  unfolding reload_engine
  reload_engine-Handlers fresh e = build_routes-Handlers fresh cfg.routes
