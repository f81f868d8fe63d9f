-- ===== src/Forward/Retry.antt =====
-- What the retries of internal/proxy/engine.go promise.
use revproxy.Prelude.{
  ℕ, zero, suc, ◌+◌, ◌^◌, ◌≤◌, ◌<◌, ◌≡◌, ◌⊎◌, inl, inr, refl, sym, ap, subst, ◌∙◌, Bool, false,
  List, [], ◌∷◌, Option, none, some, arith, length, Bytes, codes, bytes_eq, Bool-cases,
}
use revproxy.Config.{Route}
use revproxy.Backend.{Url, Backend}
use revproxy.Pool.{Pool, Pick, nobody, picked, panics, has_key, next}
use revproxy.Pool.Choice.{All, IsEligible}
use revproxy.Pool.Answer.{IsNext, next-IsNext}
use revproxy.Routing.{apply_out_url}
use revproxy.Forward.{
  Forward, Outcome, responded, echoed, errored, crashed, attempt, rounds, loop, start, round_trip,
  attempts_of, on_node,
}

abbrev pub IsDistinct : List ℕ → Type 0
IsDistinct [] = Unit {0}
IsDistinct (k ∷ ks) = (has_key k ks ≡ false) × IsDistinct ks

abbrev pub keys : List (ℕ × Url) → List ℕ
keys [] = []
keys ((k, _) ∷ sent) = k ∷ keys sent

-- Rounds that were allowed have been used, or nobody is left.
abbrev pub IsExhausted : {A : Type 0} → ℕ → Forward → Outcome A → Type 0
IsExhausted n t (responded a) = Unit {0}
IsExhausted n t echoed = Unit {0}
IsExhausted n t crashed = ⊥
IsExhausted n t (errored e) =
    (length t.sent ≡ n) ⊎ All (λ b. ¬ IsEligible (keys t.sent) b) t.pool.backends

abbrev pub IsOrderly : {A : Type 0} → ℕ → Forward → Outcome A → Type 0
IsOrderly n t o = (length t.sent ≤ n) × (IsDistinct (keys t.sent) × IsExhausted n t o)

module _ {A : Type 0} (wire : ℕ → Backend → Url → Bytes ⊎ A) (clock : ℕ → ℕ) (now : ℕ → ℕ)
    (client_ip : Bytes) (cfg : Route) where
  -- A round sends one request, to its node, and excludes it where it answers nothing.
  IsRound : Backend → Forward → Forward × Option A → Type 0
  IsRound b st (t, o) =
      (keys t.sent ≡ b.key ∷ keys st.sent)
      × ((length t.sent ≡ suc (length st.sent))
          × ((t.pool.rr ≡ st.pool.rr) × (o ≡ none → t.exclude ≡ b.key ∷ st.exclude)))

  attempt-IsRound :
      (i : ℕ) (b : Backend) (st : Forward)
      → IsRound b st (attempt wire clock now client_ip cfg i b st)
  unfolding IsRound attempt on_node
  attempt-IsRound i b st = ground arith

  abbrev pub IsOrderlyOf : ℕ → Forward × Outcome A → Type 0
  IsOrderlyOf n (t, o) = IsOrderly n t o

  -- What holds before a round of node `b`.
  IsReady : Backend → Forward → Type 0
  IsReady b st =
      (st.exclude ≡ keys st.sent)
      × (IsDistinct (keys st.sent) × (has_key b.key (keys st.sent) ≡ false))

  IsDistinct-round :
      (b : Backend) (st t : Forward) (o : Option A)
      → IsReady b st
      → IsRound b st (t, o)
      → IsDistinct (keys t.sent)
  unfolding IsReady IsRound
  IsDistinct-round b st t o ready round = rw (round.0) (ready.1.1, ready.1.0)

  excluded :
      (b : Backend) (st t : Forward)
      → IsReady b st
      → IsRound b st (t, none)
      → t.exclude ≡ keys t.sent
  unfolding IsReady IsRound
  excluded b st t ready round =
      round.1.1.1 refl ∙ ap (λ (ks : List ℕ). b.key ∷ ks) ready.0 ∙ sym round.0

  -- The last round, or one that is answered.
  ended :
      (n : ℕ) (b : Backend) (st t : Forward) (o : Option A)
      → IsReady b st
      → IsRound b st (t, o)
      → (o ≡ none → n ≡ 0)
      → IsOrderlyOf
          (suc n + length st.sent)
          (elim o [ some a ↦ (t, responded a) | none ↦ (t, errored t.last_err) ])
  unfolding IsRound
  ended n b st t (some a) ready round z =
      (omega (arith, round.1.0), (IsDistinct-round b st t (some a) ready round, tt))
  ended n b st t none ready round z = (
    omega (arith, round.1.0),
    (IsDistinct-round b st t none ready round, inl (omega (arith, round.1.0, z refl))),
  )

  -- What follows the answer of `next` after a round that failed.
  retried : ℕ → ℕ → Forward → Pool × Pick → Forward × Outcome A
  retried n i t (p, nobody) = (record t { pool = p }, errored t.last_err)
  retried n i t (p, panics) = (record t { pool = p }, crashed)
  retried n i t (p, picked c) =
      rounds wire clock now client_ip cfg n (suc i) c
        (record t { pool = p; url = apply_out_url cfg c.url t.url })

  retried-IsOrderly :
      (n i : ℕ) (b : Backend) (st t : Forward) (q : Pool × Pick)
      → IsReady b st
      → IsRound b st (t, none)
      → IsNext t.exclude t.pool q
      → st.pool.rr + suc (suc n) < 2 ^ 63
      → ((d : Backend) (s : Forward)
          → s.pool.rr + suc n < 2 ^ 63
          → IsReady d s
          → IsOrderlyOf (suc n + length s.sent) (rounds wire clock now client_ip cfg n (suc i) d s))
      → IsOrderlyOf (suc (suc n) + length st.sent) (retried n i t q)
  unfolding retried IsRound IsReady
  retried-IsOrderly n i b st t (p, nobody) ready round h r go = (
    omega (arith, round.1.0),
    (
      IsDistinct-round b st t none ready round,
      inr (rw (sym (excluded b st t ready round), h.0) h.1),
    ),
  )
  retried-IsOrderly n i b st t (p, panics) ready round h r go = absurd h
  retried-IsOrderly n i b st t (p, picked d) ready round h r go =
      subst (λ (m : ℕ). IsOrderlyOf m (retried n i t (p, picked d))) (omega (arith, round.1.0))
        (go d (record t { pool = p; url = apply_out_url cfg d.url t.url })
          (omega (arith, h.0, round.1.1.0, r))
          (
            excluded b st t ready round,
            (IsDistinct-round b st t none ready round, rw (sym (excluded b st t ready round)) h.1),
          ))

  rounds-IsOrderly :
      (n i : ℕ) (b : Backend) (st : Forward)
      → ((j : ℕ) → clock j < 2 ^ 63)
      → st.pool.rr + suc n < 2 ^ 63
      → IsReady b st
      → IsOrderlyOf (suc n + length st.sent) (rounds wire clock now client_ip cfg n i b st)
  unfolding rounds retried IsRound
  rounds-IsOrderly zero i b st c r ready =
      let (t, o) = attempt wire clock now client_ip cfg i b st in
      ended 0 b st t o ready (attempt-IsRound i b st) (λ _. refl)
  rounds-IsOrderly (suc n) i b st c r ready =
      split (attempt wire clock now client_ip cfg i b st) (attempt-IsRound i b st)
        (λ d s rr re. rounds-IsOrderly n (suc i) d s c rr re)
    where
      split :
          (x : Forward × Option A)
          → IsRound b st x
          → ((d : Backend) (s : Forward)
              → s.pool.rr + suc n < 2 ^ 63
              → IsReady d s
              → IsOrderlyOf
                  (suc n + length s.sent)
                  (rounds wire clock now client_ip cfg n (suc i) d s))
          → IsOrderlyOf (suc (suc n) + length st.sent) (elim x.1 [
            | some a ↦ (x.0, responded a)
            | none ↦ retried n i x.0 (next (clock (suc i)) client_ip x.0.exclude x.0.pool)
          ])
      split (t, some a) round go = ended (suc n) b st t (some a) ready round (λ e. cc)
      split (t, none) round go =
          retried-IsOrderly n i b st t (next (clock (suc i)) client_ip t.exclude t.pool) ready round
            (next-IsNext (clock (suc i)) client_ip t.exclude t.pool (c (suc i))
              (omega (arith, round.1.1.0, r)))
            r go

  loop-IsOrderly :
      (n : ℕ) (b : Backend) (p : Pool) (u : Url)
      → ((j : ℕ) → clock j < 2 ^ 63)
      → p.rr + n < 2 ^ 63
      → let s = start wire clock now client_ip cfg p u in
        IsOrderlyOf n (loop wire clock now client_ip cfg n b s)
  unfolding loop IsReady has_key
  loop-IsOrderly zero b p u c r = (omega arith, (tt, inl refl))
  loop-IsOrderly (suc n) b p u c r =
      let s = start wire clock now client_ip cfg p u in
      subst (λ (m : ℕ). IsOrderlyOf m (rounds wire clock now client_ip cfg n 0 b s)) (omega arith)
        (rounds-IsOrderly n 0 b s c r (refl, (tt, refl)))

  -- For clocks below 2 ^ 63 and a counter of the pool that stays below it: `RoundTrip` sends at most
  -- the allowed number of requests, no two of them to the same node; it does not crash; and it
  -- reports an error only where that many requests were sent, or every node of the pool is dead
  -- or has been tried.
  pub round_trip-IsOrderly :
      (has_body : Bool) (b : Backend) (p : Pool) (u : Url)
      → ((j : ℕ) → clock j < 2 ^ 63)
      → p.rr + attempts_of cfg has_body < 2 ^ 63
      → let (t, o) = round_trip wire clock now client_ip cfg has_body (some b) p u in
        (length t.sent ≤ attempts_of cfg has_body)
        × (IsDistinct (keys t.sent) × IsExhausted (attempts_of cfg has_body) t o)
  unfolding round_trip
  round_trip-IsOrderly has_body b p u c r =
      elim (Bool-cases (bytes_eq b.url.scheme (codes "internal"))) [
        | inl e ↦ rw e (omega arith, (tt, tt))
        | inr e ↦ rw e (loop-IsOrderly (attempts_of cfg has_body) b p u c r)
      ]
