-- ===== src/Forward.antt =====
-- Sending a request upstream with retries, `RoundTrip` of internal/proxy/engine.go for a route with
-- fixed nodes. The network is a parameter: `wire i b url` is the answer to the `i`-th request, sent
-- to node `b` with that URL, an error text or a response. `clock i` and `now i` are the
-- times that the `i`-th round reads.
pub mod Retry
pub mod Body
pub mod Gauges
pub mod Piled
mod Tests
use revproxy.Prelude.{
  ℕ, zero, suc, ◌^◌, ◌⊎◌, inl, inr, Bool, true, false, ◌&&◌, not, List, [], ◌∷◌, Option, none, some,
  if◌then◌else◌, ◌==◌, map, ltb_ℤ, is_nonpos, ℤ, pos, negsuc, add64, Bytes, codes, bytes_eq,
}
use revproxy.Config.{Route, HealthCheck}
use revproxy.Backend.{Url, Backend, mark_fail, mark_success}
use revproxy.Pool.{Pool, Pick, nobody, picked, panics, next}
use revproxy.Routing.{apply_out_url}

-- The pool, the URL of the request, the nodes that failed, the last error, and what was sent, last
-- first.
pub record Forward : Type 0 where
  pub pool : Pool
  pub url : Url
  pub exclude : List ℕ
  pub last_err : Option Bytes
  pub sent : List (ℕ × Url)

-- `errored none` is errNoBackend; `echoed` is the answer of the built-in test upstream.
pub data Outcome (A : Type 0) : Type 0 where
  responded : A → Outcome A
  echoed : Outcome A
  errored : Option Bytes → Outcome A
  crashed : Outcome A

-- The node at an address.
unfoldable pub on_key : (Backend → Backend) → ℕ → List Backend → List Backend
on_key f k [] = []
on_key f k (b ∷ bs) = (if b.key == k then f b else b) ∷ on_key f k bs

unfoldable pub on_node : (Backend → Backend) → ℕ → Pool → Pool
unfolding on_key
on_node f k p = record p { backends = on_key f k p.backends }

unfoldable pub add_conns : ℤ → Backend → Backend
add_conns n b = record b { conns = add64 b.conns n }

-- 1 + max(0, retry) rounds, one for a request with a body; the sum of a Go `int` can be negative.
pub attempts_of : Route → Bool → ℕ
attempts_of cfg has_body =
    if has_body
    then 1
    else (elim (add64 (pos 1) (if ltb_ℤ cfg.retry (pos 0) then pos 0 else cfg.retry)) [
      | pos n ↦ n
      | negsuc n ↦ 0
    ])

pub threshold_of : Route → ℤ
threshold_of cfg =
    if cfg.health.enabled && not (is_nonpos cfg.health.fails) then cfg.health.fails else pos 3

module _ {A : Type 0} (wire : ℕ → Backend → Url → Bytes ⊎ A) (clock : ℕ → ℕ) (now : ℕ → ℕ)
    (client_ip : Bytes) (cfg : Route) where
  -- One round, from the count of the connection to the marks on the node.
  pub attempt : ℕ → Backend → Forward → Forward × Option A
  unfolding on_node add_conns threshold_of
  attempt i b st =
      let begun = on_node (add_conns (pos 1)) b.key st.pool in
      let sent = (b.key, st.url) ∷ st.sent in
      elim (wire i b st.url) [
        | inl err ↦ (
          record st {
            pool =
                on_node (mark_fail (some err) (threshold_of cfg) (now i)) b.key
                  (on_node (add_conns (negsuc 0)) b.key begun);
            exclude = b.key ∷ st.exclude;
            last_err = some err;
            sent = sent;
          },
          none,
        )
        | inr a ↦ (record st { pool = on_node mark_success b.key begun; sent = sent }, some a)
      ]

  -- The loop in the round of node `b`, with `n` more rounds.
  pub rounds : ℕ → ℕ → Backend → Forward → Forward × Outcome A
  unfolding attempt
  rounds zero i b st =
      let (t, o) = attempt i b st in
      elim o [ some a ↦ (t, responded a) | none ↦ (t, errored t.last_err) ]
  rounds (suc n) i b st =
      let (t, o) = attempt i b st in
      elim o [
        | some a ↦ (t, responded a)
        | none ↦
            (let (p, pick) = next (clock (suc i)) client_ip t.exclude t.pool in
              elim pick [
                | nobody ↦ (record t { pool = p }, errored t.last_err)
                | panics ↦ (record t { pool = p }, crashed)
                | picked c ↦
                    rounds n (suc i) c (record t { pool = p; url = apply_out_url cfg c.url t.url })
              ])
      ]

  pub loop : ℕ → Backend → Forward → Forward × Outcome A
  unfolding rounds
  loop zero b st = (st, errored none)
  loop (suc n) b st = rounds n 0 b st

  abbrev pub start : Pool → Url → Forward
  start p u = record { pool = p; url = u; exclude = []; last_err = none; sent = [] }

  -- RoundTrip, where `b` is the node that the request was given and `u` its URL.
  pub round_trip : Bool → Option Backend → Pool → Url → Forward × Outcome A
  unfolding loop attempts_of
  round_trip has_body none p u = (start p u, errored none)
  round_trip has_body (some b) p u =
      if bytes_eq b.url.scheme (codes "internal")
      then (start (on_node mark_success b.key p) u, echoed)
      else loop (attempts_of cfg has_body) b (start p u)
