-- ===== src/Serve/Account.antt =====
-- How a request of internal/proxy/engine.go is accounted for.
use revproxy.Prelude.{
  ◌&&◌, ℕ, ◌+◌, ◌<◌, ◌^◌, Bool, true, false, List, [], ◌∷◌, Option, none, some, is_empty, ℤ, pos,
  add64,
}
use revproxy.Config.{Config}
use revproxy.Backend.{Backend}
use revproxy.Host.{Request}
use revproxy.Access.{Net}
use revproxy.Pool.{Pool}
use revproxy.Routing.{dyn_domain_of}
use revproxy.Stats.{AccessLog}
use revproxy.Serve.{Handler}

-- The requests in flight afterwards: as many as before if the request was ended, else one more.
abbrev pub active_after : Bool → ℤ → ℤ
active_after true a = a
active_after false a = add64 a (pos 1)

abbrev is_logged : Option AccessLog → Bool
is_logged none = false
is_logged (some _) = true

module _ (n : Net) where
  -- A route with the domain in the path, and a request whose path has none.
  abbrev pub has_no_domain : Handler n → Request → Bool
  has_no_domain h r = h.dyn_domain && is_empty (dyn_domain_of h.matcher.cfg.path r.path)

  -- What the request goes to is such a route: status 400.
  abbrev pub is_turned_away : Request → Option (Handler n) → Bool
  is_turned_away r none = false
  is_turned_away r (some h) = has_no_domain h r

  abbrev counter_of : Option (Handler n) → ℕ
  counter_of none = 0
  counter_of (some h) = h.pool.rr

  abbrev pub HaveRoom : List (Handler n) → Type 0
  HaveRoom [] = Unit {0}
  HaveRoom (h ∷ hs) = (h.pool.rr + 1 < 2 ^ 63) × HaveRoom hs
