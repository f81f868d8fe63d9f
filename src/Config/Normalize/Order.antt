-- ===== src/Config/Normalize/Order.antt =====
-- The order of the routes after `normalize` in internal/config/config.go.
use revproxy.Prelude.{◌<◌, ◌≡◌, ◌≢◌, ◌⊎◌, true, false, [], arith, length, ltb_ℤ, eqb_ℤ_iff}
use revproxy.Config.{Route}
use revproxy.Config.Normalize.{route_less}

-- A route for a given host that meets a route for any host with a longer path.
abbrev pub Clash : Route → Route → Type 0
Clash a b = (a.host ≢ []) × (b.host ≡ []) × (length a.path < length b.path)

-- The bug in the comparison: two routes of one priority, of which one names a host and the other
-- has none but a longer path, each come before the other, so that the order which a stable sort
-- leaves them in is not determined by the comparison.
pub route_less-Clash :
    (a b : Route)
    → a.priority ≡ b.priority
    → Clash a b
    → (route_less a b ≡ true) × (route_less b a ≡ true)
unfolding route_less
route_less-Clash a b e c =
    ground (arith, eqb_ℤ_iff a.priority b.priority, eqb_ℤ_iff b.priority a.priority)

-- A higher priority always comes first.
pub route_less_priority :
    (a b : Route)
    → ltb_ℤ b.priority a.priority ≡ true
    → (route_less a b ≡ true) × (route_less b a ≡ false)
unfolding route_less
route_less_priority a b h =
    ground (arith, eqb_ℤ_iff a.priority b.priority, eqb_ℤ_iff b.priority a.priority)

-- Two routes come each before the other in no other case.
pub route_less_both :
    (a b : Route)
    → route_less a b ≡ true
    → route_less b a ≡ true
    → (a.priority ≡ b.priority) × (Clash a b ⊎ Clash b a)
unfolding route_less
route_less_both a b h k =
    ground (arith, eqb_ℤ_iff a.priority b.priority, eqb_ℤ_iff b.priority a.priority)
