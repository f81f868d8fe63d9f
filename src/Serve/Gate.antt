-- ===== src/Serve/Gate.antt =====
-- Who is let through by the access control of internal/proxy/engine.go.
use revproxy.Prelude.{ℕ, ◌+◌, ◌^◌, ◌<◌, ◌≡◌, ◌⊎◌, ap, subst, true, false, [], arith, Bytes}
use revproxy.Backend.{Backend}
use revproxy.Host.{Request, basic_auth_ok}
use revproxy.Access.{Net, match_ip, matcher_empty}
use revproxy.Pool.{Pool, Pick, nobody, picked, panics, next}
use revproxy.Pool.Choice.{Among, IsEntitled}
use revproxy.Pool.Next.{IsRight, next-IsRight}
use revproxy.Serve.{
  Handler, Verdict, forwarded, no_upstream, crashed, gate, choose, ip_barred, auth_missing,
  limiter_allows,
}

module _ (n : Net) where
  -- The conditions under which a request may go to node `b`.
  abbrev pub IsAdmitted : Handler n → Request → Bytes → ℕ → Backend → Type 0
  IsAdmitted h r ip clock b =
      let auth = h.matcher.cfg.access.basic_auth in
      (match_ip n h.deny_ips ip ≡ false)
      × (((matcher_empty n h.allow_ips ≡ true) ⊎ (match_ip n h.allow_ips ip ≡ true))
          × (((auth.enabled ≡ false) ⊎ (basic_auth_ok r auth.username auth.password ≡ true))
              × (((limiter_allows n h.limiter ip clock).1 ≡ true)
                  × Among (IsEntitled [] h.pool.backends) b.key h.pool.backends)))

  abbrev key_of : Verdict n → ℕ
  key_of (forwarded d) = d.key
  key_of _ = 0

  choose-forwarded :
      (h : Handler n) (ip : Bytes) (clock : ℕ) (b : Backend)
      → clock < 2 ^ 63
      → h.pool.rr + 1 < 2 ^ 63
      → (choose n h ip clock).1 ≡ forwarded b
      → Among (IsEntitled [] h.pool.backends) b.key h.pool.backends
  unfolding choose
  choose-forwarded h ip clock b c r =
      split (next clock ip [] h.pool) (next-IsRight clock ip [] h.pool c r)
    where
      split :
          (x : Pool × Pick)
          → IsRight [] h.pool.backends x.1
          → (let y : Handler n × Verdict n = elim x.1 [
            | nobody ↦ (record h { pool = x.0 }, no_upstream)
            | picked b ↦ (record h { pool = x.0 }, forwarded b)
            | panics ↦ (record h { pool = x.0 }, crashed)
          ] in
              y.1 ≡ forwarded b)
          → Among (IsEntitled [] h.pool.backends) b.key h.pool.backends
      split (p, nobody) w e = cc
      split (p, panics) w e = cc
      split (p, picked d) w e =
          subst (λ (k : ℕ). Among (IsEntitled [] h.pool.backends) k h.pool.backends) (ap key_of e) w

  -- A request is sent to a node, at a clock and a counter of the pool below 2 ^ 63, only if its address is not denied and is
  -- allowed (a list of allowed addresses with no valid item allows all), its login is right where the route wants one, the rate
  -- limiter has let it in, and the node is alive, and no backup unless all primary nodes are down.
  pub gate-IsAdmitted :
      (h : Handler n) (r : Request) (ip : Bytes) (clock : ℕ) (b : Backend)
      → clock < 2 ^ 63
      → h.pool.rr + 1 < 2 ^ 63
      → (gate n h r ip clock).1 ≡ forwarded b
      → IsAdmitted h r ip clock b
  unfolding gate ip_barred auth_missing
  gate-IsAdmitted h r ip clock b c w e = ground (
    arith,
    choose-forwarded (record h { limiter = (limiter_allows n h.limiter ip clock).0 }) ip clock b c
        w,
  )
