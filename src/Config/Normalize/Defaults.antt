-- ===== src/Config/Normalize/Defaults.antt =====
-- What `normalize` of internal/config/config.go leaves behind.
use mathlib.Core.List.{Mem, Perm, mem-cons, not-mem-nil}
use mathlib.Core.List.Perm
use mathlib.Core.Logic.Or
use native.Mathlib.Bridge.{le_prop}
use revproxy.Prelude.{
  ℕ, ◌+◌, ◌≤◌, ◌≡◌, ◌≢◌, sym, subst, Bool, List, [], ◌∷◌, map, arith, ℤ, pos_part, neg_part, Bytes,
  codes, bytes_eq_iff,
}
use revproxy.Config.{Route, Config, BackendConfig}
use revproxy.Config.Normalize.{
  Entropy, normalize_route, normalize_routes, normalize_backend, normalize_scheme, normalize,
  route_less,
}

abbrev IsPositive : ℤ → Type 0
IsPositive z = neg_part z + 1 ≤ pos_part z

abbrev pub HasWeights : List BackendConfig → Type 0
HasWeights [] = Unit {0}
HasWeights (b ∷ bs) = IsPositive b.weight × HasWeights bs

-- A route as the rest of the program may rely on it.
abbrev pub IsNormal : Route → Type 0
IsNormal r =
    (r.id ≢ [])
    × (r.match_kind ≢ [])
    × (r.lb ≢ [])
    × (r.path ≢ [])
    × IsPositive r.health.interval
    × IsPositive r.health.timeout
    × IsPositive r.health.fails
    × IsPositive r.health.passes
    × HasWeights r.backends
    × (r.mode ≡ codes "domain_in_path" → (r.scheme ≢ codes "http") → (r.scheme ≡ codes "https"))

HasWeights-map : (bs : List BackendConfig) → HasWeights (map normalize_backend bs)
unfolding normalize_backend
HasWeights-map [] = tt
HasWeights-map (b ∷ bs) = (ground arith, HasWeights-map bs)

normalize_scheme_lem :
    (mode scheme : Bytes)
    → mode ≡ codes "domain_in_path"
    → normalize_scheme mode scheme ≢ codes "http"
    → normalize_scheme mode scheme ≡ codes "https"
unfolding normalize_scheme
normalize_scheme_lem mode scheme e n = ground (
  arith,
  bytes_eq_iff mode (codes "domain_in_path"),
  bytes_eq_iff scheme (codes "http"),
  bytes_eq_iff scheme (codes "https"),
)

normalize_route-IsNormal :
    (digits : Bytes) (now : ℕ) (r : Route) → IsNormal (normalize_route digits now r)
unfolding normalize_route
normalize_route-IsNormal digits now r = (
  ground arith,
  ground arith,
  ground arith,
  ground arith,
  ground arith,
  ground arith,
  ground arith,
  ground arith,
  HasWeights-map r.backends,
  normalize_scheme_lem r.mode r.scheme,
)

HasWeights-prop : (bs : List BackendConfig) → IsProp (HasWeights bs)
HasWeights-prop [] = hlevel
HasWeights-prop (b ∷ bs) = hlevel (le_prop, HasWeights-prop bs)

IsNormal-prop : (r : Route) → IsProp (IsNormal r)
IsNormal-prop r = hlevel (le_prop, HasWeights-prop r.backends)

normalize_routes-IsNormal :
    (digits : ℕ → Bytes) (now i : ℕ) (rs : List Route) {r : Route}
    → Mem r (normalize_routes digits now i rs)
    → IsNormal r
unfolding normalize_routes
normalize_routes-IsNormal digits now i [] m = absurd (not-mem-nil m)
normalize_routes-IsNormal digits now i (x ∷ rs) {r} m =
    Or.elim (IsNormal-prop r) (mem-cons.0 m)
      (λ e. subst IsNormal (sym e) (normalize_route-IsNormal (digits i) now x))
      (normalize_routes-IsNormal digits now (i + 1) rs)

-- What the documentation of `sort.SliceStable` promises of any comparison.
abbrev pub Permutes : ((Route → Route → Bool) → List Route → List Route) → Type 0
Permutes stable_sort =
    (less : Route → Route → Bool) (rs : List Route) → Perm (stable_sort less rs) rs

module _ (stable_sort : (Route → Route → Bool) → List Route → List Route)
    (permutes : Permutes stable_sort) (e : Entropy) (now : ℕ) (c : Config) where
  -- Every route of a normalised configuration has an id, a kind of match, a strategy, a path,
  -- positive health parameters and positive weights, and a route that takes its target from the
  -- path has the scheme http or https.
  pub normalize-IsNormal : {r : Route} → Mem r (normalize stable_sort e now c).routes → IsNormal r
  unfolding normalize
  normalize-IsNormal m =
      normalize_routes-IsNormal e.route_digits now 0 c.routes
        ((Perm.mem_iff (permutes route_less _)).0 m)
