-- ===== src/Forward/Gauges.antt =====
-- What `RoundTrip` of internal/proxy/engine.go does to the gauges of open connections.
use revproxy.Prelude.{
  ℕ, zero, suc, ◌≡◌, ◌⊎◌, inl, inr, refl, sym, ap, subst, ◌∙◌, Bool, true, false, List, [], ◌∷◌,
  Option, none, some, if◌then◌else◌, ◌==◌, arith, ℤ, pos, negsuc, ◌+ℤ◌, add64, wrap64, IsInt64,
  Bytes, codes, bytes_eq, Bool-cases,
}
use revproxy.Config.{Route}
use revproxy.Backend.{Url, Backend, mark_fail, mark_success}
use revproxy.Pool.{Pool, Pick, nobody, picked, panics, next}
use revproxy.Pool.Gauges.{gauges, AreApart, next-gauges}
use revproxy.Routing.{apply_out_url}
use revproxy.Forward.{
  Forward, Outcome, responded, echoed, errored, crashed, attempt, rounds, loop, start, round_trip,
  attempts_of, on_node, on_key, add_conns, threshold_of,
}
use revproxy.Forward.Body.{CountBody, body_of, close, closes}

-- The gauges with `n` more at an address.
abbrev bump : ℤ → ℕ → List (ℕ × ℤ) → List (ℕ × ℤ)
bump n k [] = []
bump n k ((j, c) ∷ g) = (j, if j == k then add64 c n else c) ∷ bump n k g

abbrev pub AllInt64 : List (ℕ × ℤ) → Type 0
AllInt64 [] = Unit {0}
AllInt64 ((k, c) ∷ g) = IsInt64 c × AllInt64 g

gauges-add :
    (n : ℤ) (k : ℕ) (bs : List Backend) → gauges (on_key (add_conns n) k bs) ≡ bump n k (gauges bs)
unfolding on_key add_conns
gauges-add n k [] = refl
gauges-add n k (b ∷ bs) = ground (arith, gauges-add n k bs)

-- A mark changes no gauge.
gauges-mark :
    (f : Backend → Backend) (k : ℕ) (bs : List Backend)
    → ((b : Backend) → ((f b).key ≡ b.key) × ((f b).conns ≡ b.conns))
    → gauges (on_key f k bs) ≡ gauges bs
unfolding on_key
gauges-mark f k [] h = refl
gauges-mark f k (b ∷ bs) h = ground (arith, h b, gauges-mark f k bs h)

add64-back : (c : ℤ) → IsInt64 c → add64 (add64 c (pos 1)) (negsuc 0) ≡ c
unfolding add64 wrap64 ◌+ℤ◌
add64-back (pos n) h = ground arith
add64-back (negsuc n) h = ground arith

bump-back : (k : ℕ) (g : List (ℕ × ℤ)) → AllInt64 g → bump (negsuc 0) k (bump (pos 1) k g) ≡ g
bump-back k [] h = refl
bump-back k ((j, c) ∷ g) h = ground (arith, add64-back c h.0, bump-back k g h.1)

module _ {A : Type 0} (wire : ℕ → Backend → Url → Bytes ⊎ A) (clock : ℕ → ℕ) (now : ℕ → ℕ)
    (client_ip : Bytes) (cfg : Route) where
  -- One more connection at the node where the request was answered, and none where it was not.
  AfterAttempt : Backend → Forward → Forward × Option A → Type 0
  AfterAttempt b st (t, none) = gauges t.pool.backends ≡ gauges st.pool.backends
  AfterAttempt b st (t, some a) =
      (gauges t.pool.backends ≡ bump (pos 1) b.key (gauges st.pool.backends))
      × (body_of t ≡ some (record { node = b.key; once = false }))

  attempt-After :
      (i : ℕ) (b : Backend) (st : Forward)
      → AllInt64 (gauges st.pool.backends)
      → AfterAttempt b st (attempt wire clock now client_ip cfg i b st)
  unfolding AfterAttempt attempt on_node body_of mark_fail mark_success
  attempt-After i b st h = split (wire i b st.url) refl
    where
      split :
          (r : Bytes ⊎ A)
          → wire i b st.url ≡ r
          → AfterAttempt b st (attempt wire clock now client_ip cfg i b st)
      split (inl err) e =
          rw (e, AfterAttempt)
            (rw (e, attempt)
              (gauges-mark (mark_fail (some err) (threshold_of cfg) (now i)) b.key _
                  (λ c. (refl, refl))
                ∙ gauges-add (negsuc 0) b.key _
                ∙ ap (bump (negsuc 0) b.key) (gauges-add (pos 1) b.key st.pool.backends)
                ∙ bump-back b.key (gauges st.pool.backends) h))
      split (inr a) e =
          rw (e, AfterAttempt)
            (rw (e, attempt)
              (
                gauges-mark mark_success b.key _ (λ c. (refl, refl))
                    ∙ gauges-add (pos 1) b.key st.pool.backends,
                refl,
              ))

  -- The gauges at the end, where they were `g` at first: for a response one more at its node.
  Counted : List (ℕ × ℤ) → Forward × Outcome A → Type 0
  Counted g (t, responded a) =
      (c : CountBody) × ((body_of t ≡ some c)
        × ((c.once ≡ false) × (gauges t.pool.backends ≡ bump (pos 1) c.node g)))
  Counted g (t, echoed) = gauges t.pool.backends ≡ g
  Counted g (t, errored e) = gauges t.pool.backends ≡ g
  Counted g (t, crashed) = gauges t.pool.backends ≡ g

  responded-Counted :
      (b : Backend) (st t : Forward) (a : A)
      → AfterAttempt b st (t, some a)
      → Counted (gauges st.pool.backends) (t, responded a)
  unfolding AfterAttempt Counted
  responded-Counted b st t a h = (record { node = b.key; once = false }, (h.1, (refl, h.0)))

  rounds-Counted :
      (n i : ℕ) (b : Backend) (st : Forward)
      → AreApart (gauges st.pool.backends)
      → AllInt64 (gauges st.pool.backends)
      → Counted (gauges st.pool.backends) (rounds wire clock now client_ip cfg n i b st)
  unfolding rounds Counted AfterAttempt
  rounds-Counted zero i b st apart fits =
      split (attempt wire clock now client_ip cfg i b st) (attempt-After i b st fits)
    where
      split :
          (x : Forward × Option A)
          → AfterAttempt b st x
          → Counted
              (gauges st.pool.backends)
              (elim x.1 [ some a ↦ (x.0, responded a) | none ↦ (x.0, errored x.0.last_err) ])
      split (t, some a) h = responded-Counted b st t a h
      split (t, none) h = h
  rounds-Counted (suc n) i b st apart fits =
      split (attempt wire clock now client_ip cfg i b st) (attempt-After i b st fits) (λ d s same.
        subst (λ (g : List (ℕ × ℤ)). Counted g (rounds wire clock now client_ip cfg n (suc i) d s))
          same
          (rounds-Counted n (suc i) d s (subst AreApart (sym same) apart)
            (subst AllInt64 (sym same) fits)))
    where
      go_on : Forward → Pool × Pick → Forward × Outcome A
      go_on t (p, nobody) = (record t { pool = p }, errored t.last_err)
      go_on t (p, panics) = (record t { pool = p }, crashed)
      go_on t (p, picked c) =
          rounds wire clock now client_ip cfg n (suc i) c
            (record t { pool = p; url = apply_out_url cfg c.url t.url })

      kept :
          (t : Forward) (q : Pool × Pick)
          → gauges q.0.backends ≡ gauges st.pool.backends
          → ((d : Backend) (s : Forward)
              → gauges s.pool.backends ≡ gauges st.pool.backends
              → Counted
                  (gauges st.pool.backends)
                  (rounds wire clock now client_ip cfg n (suc i) d s))
          → Counted (gauges st.pool.backends) (go_on t q)
      kept t (p, nobody) h go = h
      kept t (p, panics) h go = h
      kept t (p, picked c) h go =
          go c (record t { pool = p; url = apply_out_url cfg c.url t.url }) h

      split :
          (x : Forward × Option A)
          → AfterAttempt b st x
          → ((d : Backend) (s : Forward)
              → gauges s.pool.backends ≡ gauges st.pool.backends
              → Counted
                  (gauges st.pool.backends)
                  (rounds wire clock now client_ip cfg n (suc i) d s))
          → Counted (gauges st.pool.backends) (elim x.1 [
            | some a ↦ (x.0, responded a)
            | none ↦ go_on x.0 (next (clock (suc i)) client_ip x.0.exclude x.0.pool)
          ])
      split (t, some a) h go = responded-Counted b st t a h
      split (t, none) h go =
          kept t (next (clock (suc i)) client_ip t.exclude t.pool)
            (next-gauges (clock (suc i)) client_ip t.exclude t.pool (subst AreApart (sym h) apart)
              ∙ h)
            go

  loop-Counted :
      (n : ℕ) (b : Backend) (p : Pool) (u : Url)
      → AreApart (gauges p.backends)
      → AllInt64 (gauges p.backends)
      → Counted
          (gauges p.backends)
          (loop wire clock now client_ip cfg n b (start wire clock now client_ip cfg p u))
  unfolding loop Counted
  loop-Counted zero b p u apart fits = refl
  loop-Counted (suc n) b p u apart fits =
      rounds-Counted n 0 b (start wire clock now client_ip cfg p u) apart fits

closes_done : (n k : ℕ) (p : Pool) → closes n (record { node = k; once = true }) p ≡ p
unfolding closes close
closes_done zero k p = refl
closes_done (suc n) k p = closes_done n k p

-- The first `Close` counts, and no other.
close-gauges :
    (n : ℕ) (c : CountBody) (p : Pool)
    → c.once ≡ false
    → gauges (closes (suc n) c p).backends ≡ bump (negsuc 0) c.node (gauges p.backends)
unfolding closes close on_node
close-gauges n c p e =
    rw (e, closes_done n c.node (on_node (add_conns (negsuc 0)) c.node p))
      (gauges-add (negsuc 0) c.node p.backends)

-- What becomes of the gauges in the end, when the body of a response is closed `n` times.
abbrev pub AreRestored : {A : Type 0} → ℕ → Pool → Forward × Outcome A → Type 0
AreRestored n p (t, responded a) =
    (c : CountBody) × ((body_of t ≡ some c)
      × (gauges (closes n c t.pool).backends ≡ gauges p.backends))
AreRestored n p (t, echoed) = gauges t.pool.backends ≡ gauges p.backends
AreRestored n p (t, errored e) = gauges t.pool.backends ≡ gauges p.backends
AreRestored n p (t, crashed) = gauges t.pool.backends ≡ gauges p.backends

module _ {A : Type 0} (wire : ℕ → Backend → Url → Bytes ⊎ A) (clock : ℕ → ℕ) (now : ℕ → ℕ)
    (client_ip : Bytes) (cfg : Route) where
  restored :
      (n : ℕ) (p : Pool) (x : Forward × Outcome A)
      → AllInt64 (gauges p.backends)
      → Counted wire clock now client_ip cfg (gauges p.backends) x
      → AreRestored (suc n) p x
  unfolding Counted
  restored n p (t, responded a) fits (c, (body, (open_yet, g))) = (
    c,
    (
      body,
      close-gauges n c t.pool open_yet
          ∙ ap (bump (negsuc 0) c.node) g
          ∙ bump-back c.node (gauges p.backends) fits,
    ),
  )
  restored n p (t, echoed) fits h = h
  restored n p (t, errored e) fits h = h
  restored n p (t, crashed) fits h = h

  -- On a pool with nodes at addresses of their own, and gauges of 64 bits: when `RoundTrip` fails, or the
  -- body of its response is closed, once or several times, the gauges of open connections of
  -- all nodes are as they were before, whatever retries there were.
  pub round_trip-AreRestored :
      (has_body : Bool) (b : Option Backend) (p : Pool) (u : Url) (n : ℕ)
      → AreApart (gauges p.backends)
      → AllInt64 (gauges p.backends)
      → AreRestored (suc n) p (round_trip wire clock now client_ip cfg has_body b p u)
  unfolding round_trip on_node mark_success
  round_trip-AreRestored has_body none p u n apart fits = refl
  round_trip-AreRestored has_body (some b) p u n apart fits =
      elim (Bool-cases (bytes_eq b.url.scheme (codes "internal"))) [
        | inl e ↦ rw e (gauges-mark mark_success b.key p.backends (λ c. (refl, refl)))
        | inr e ↦ rw e (
            restored n p _ fits (
              loop-Counted wire clock now client_ip cfg (attempts_of cfg has_body) b p u apart
                fits))
      ]
