-- ===== src/Forward/Piled.antt =====
-- The paths that the retries of internal/proxy/engine.go ask for.
use revproxy.Prelude.{
  ℕ, zero, suc, ◌≡◌, ◌⊎◌, inl, inr, refl, ◌∙◌, Bool, false, List, [], ◌∷◌, ◌++◌, Option, none, some,
  ◌==◌, Bytes, codes, bytes_eq, Bool-cases,
}
use revproxy.Config.{Route}
use revproxy.Backend.{Url, Backend, mark_fail, mark_success}
use revproxy.Pool.{Pool, Pick, nobody, picked, panics, next}
use revproxy.Pool.Bases.{HaveBases, NextHasBase, next-HasBase}
use revproxy.Routing.{apply_out_url}
use revproxy.Routing.Target.{apply_out_url-plain}
use revproxy.Forward.{
  Forward, Outcome, responded, errored, crashed, attempt, rounds, loop, start, round_trip,
  attempts_of, on_key, on_node, add_conns,
}
use revproxy.Forward.Retry.{keys}

-- The paths that were sent, last first.
abbrev pub paths : List (ℕ × Url) → List Bytes
paths [] = []
paths ((k, u) ∷ sent) = u.path ∷ paths sent

module _ (base : ℕ → Bytes) (path : Bytes) where
  -- The base paths of the nodes, last first, in front of the path.
  abbrev pub pile : List ℕ → Bytes
  pile [] = path
  pile (k ∷ ks) = base k ++ pile ks

  abbrev pub piles : List ℕ → List Bytes
  piles [] = []
  piles (k ∷ ks) = pile (k ∷ ks) ∷ piles ks

  on_key-HaveBases :
      (f : Backend → Backend) (k : ℕ) (bs : List Backend)
      → ((b : Backend) → ((f b).key ≡ b.key) × ((f b).url ≡ b.url))
      → HaveBases base bs
      → HaveBases base (on_key f k bs)
  unfolding on_key
  on_key-HaveBases f k [] same h = tt
  on_key-HaveBases f k (b ∷ bs) same h = elim (Bool-cases (b.key == k)) [
    | inl e ↦ rw (e, (same b).0, (same b).1) (h.0, on_key-HaveBases f k bs same h.1)
    | inr e ↦ rw e (h.0, on_key-HaveBases f k bs same h.1)
  ]

  module _ {A : Type 0} (wire : ℕ → Backend → Url → Bytes ⊎ A) (clock : ℕ → ℕ) (now : ℕ → ℕ)
      (client_ip : Bytes) (cfg : Route) (no_rewrite : cfg.rewrite ≡ [])
      (whole : cfg.strip_path ≡ false) where
    -- Before a round of node `b`, and after it.
    abbrev Ready : Backend → Forward → Type 0
    Ready b st =
        HaveBases base st.pool.backends
        × ((st.url.path ≡ pile (b.key ∷ keys st.sent)) × (paths st.sent ≡ piles (keys st.sent)))

    abbrev After : Backend → Forward → Forward → Type 0
    After b st t =
        HaveBases base t.pool.backends
        × ((t.url.path ≡ pile (keys t.sent)) × (paths t.sent ≡ piles (keys t.sent)))

    attempt-After :
        (i : ℕ) (b : Backend) (st : Forward)
        → Ready b st
        → After b st (attempt wire clock now client_ip cfg i b st).0
    unfolding attempt on_node add_conns mark_fail mark_success
    attempt-After i b st (bases, (u, sent)) = split (wire i b st.url) refl
      where
        split :
            (r : Bytes ⊎ A)
            → wire i b st.url ≡ r
            → After b st (attempt wire clock now client_ip cfg i b st).0
        split (inl err) e =
            rw (attempt, e)
              (
                on_key-HaveBases _ b.key _ (λ c. (refl, refl))
                    (on_key-HaveBases _ b.key _ (λ c. (refl, refl))
                      (on_key-HaveBases _ b.key _ (λ c. (refl, refl)) bases)),
                (u, cc),
              )
        split (inr a) e =
            rw (attempt, e)
              (
                on_key-HaveBases _ b.key _ (λ c. (refl, refl))
                    (on_key-HaveBases _ b.key _ (λ c. (refl, refl)) bases),
                (u, cc),
              )

    abbrev IsPiled : Forward × Outcome A → Type 0
    IsPiled (t, o) = paths t.sent ≡ piles (keys t.sent)

    -- What follows the answer of `next` after a round that failed.
    go_on : ℕ → ℕ → Forward → Pool × Pick → Forward × Outcome A
    go_on n i t (p, nobody) = (record t { pool = p }, errored t.last_err)
    go_on n i t (p, panics) = (record t { pool = p }, crashed)
    go_on n i t (p, picked c) =
        rounds wire clock now client_ip cfg n (suc i) c
          (record t { pool = p; url = apply_out_url cfg c.url t.url })

    go_on-IsPiled :
        (n i : ℕ) (b : Backend) (st t : Forward) (q : Pool × Pick)
        → After b st t
        → NextHasBase base q
        → ((d : Backend) (s : Forward)
            → Ready d s
            → IsPiled (rounds wire clock now client_ip cfg n (suc i) d s))
        → IsPiled (go_on n i t q)
    unfolding go_on
    go_on-IsPiled n i b st t (p, nobody) h q go = h.1.1
    go_on-IsPiled n i b st t (p, panics) h q go = h.1.1
    go_on-IsPiled n i b st t (p, picked c) h q go =
        go c (record t { pool = p; url = apply_out_url cfg c.url t.url })
          (q.0, (apply_out_url-plain cfg c.url t.url no_rewrite whole ∙ cc (q.1, h.1.0), h.1.1))

    rounds-IsPiled :
        (n i : ℕ) (b : Backend) (st : Forward)
        → Ready b st
        → IsPiled (rounds wire clock now client_ip cfg n i b st)
    unfolding rounds go_on
    rounds-IsPiled zero i b st ready =
        split (attempt wire clock now client_ip cfg i b st) (attempt-After i b st ready)
      where
        split :
            (x : Forward × Option A)
            → After b st x.0
            → IsPiled
                (elim x.1 [ some a ↦ (x.0, responded a) | none ↦ (x.0, errored x.0.last_err) ])
        split (t, some a) h = h.1.1
        split (t, none) h = h.1.1
    rounds-IsPiled (suc n) i b st ready =
        split (attempt wire clock now client_ip cfg i b st) (attempt-After i b st ready)
          (λ d s h. rounds-IsPiled n (suc i) d s h)
      where
        split :
            (x : Forward × Option A)
            → After b st x.0
            → ((d : Backend) (s : Forward)
                → Ready d s
                → IsPiled (rounds wire clock now client_ip cfg n (suc i) d s))
            → IsPiled (elim x.1 [
              | some a ↦ (x.0, responded a)
              | none ↦ go_on n i x.0 (next (clock (suc i)) client_ip x.0.exclude x.0.pool)
            ])
        split (t, some a) h go = h.1.1
        split (t, none) h go =
            go_on-IsPiled n i b st t (next (clock (suc i)) client_ip t.exclude t.pool) h
              (next-HasBase base (clock (suc i)) client_ip t.exclude t.pool h.0) go

    loop-IsPiled :
        (n : ℕ) (b : Backend) (p : Pool) (u : Url)
        → HaveBases base p.backends
        → u.path ≡ base b.key ++ path
        → IsPiled (loop wire clock now client_ip cfg n b (start wire clock now client_ip cfg p u))
    unfolding loop
    loop-IsPiled zero b p u h e = refl
    loop-IsPiled (suc n) b p u h e =
        rounds-IsPiled n 0 b (start wire clock now client_ip cfg p u) (h, (e, refl))

    -- The bug in a retry: the URL is computed again from the request that the attempt before has
    -- already changed. On a route with no rewrite and no stripped prefix, where `base` gives the base
    -- path of each node without its last slashes: every request that `RoundTrip` sends has in front
    -- of the path of the client the base path of its own node and then the base paths of all nodes
    -- that were tried before it, the latest first.
    pub round_trip-piles :
        (has_body : Bool) (b : Backend) (p : Pool) (out : Url)
        → HaveBases base (b ∷ p.backends)
        → out.path ≡ path
        → let (t, o) =
            round_trip wire clock now client_ip cfg has_body
              (some b)
              p
              (apply_out_url cfg b.url out) in
          paths t.sent ≡ piles (keys t.sent)
    unfolding round_trip
    round_trip-piles has_body b p out h e =
        elim (Bool-cases (bytes_eq b.url.scheme (codes "internal"))) [
          | inl k ↦ rw k refl
          | inr k ↦ rw k (
              loop-IsPiled (attempts_of cfg has_body) b p (apply_out_url cfg b.url out) h.1
                (apply_out_url-plain cfg b.url out no_rewrite whole ∙ cc (h.0, e)))
        ]
