-- ===== src/Health/Rounds.antt =====
-- How the rounds of the health checker of internal/proxy/upstream.go move a node.
use revproxy.Prelude.{
  ℕ, zero, suc, ◌^◌, ◌<◌, ◌≡◌, ◌⊎◌, inl, inr, refl, arith, Bool, true, false, List, [], ◌∷◌, map,
  some, ltb, leb, ℤ, pos, pos_part, Bytes, codes, bytes_eq, get_elem?,
}
use revproxy.Config.{HealthCheck}
use revproxy.Backend.{Url, Backend, mark_fail, mark_ok, at_least_one}
use revproxy.Backend.Marks.{add64_suc}
use revproxy.Pool.{Pool}
use revproxy.Health.{check_url, good_status, status_text, mark_answer, check_node, check, checks}

-- An answer that passes the check.
abbrev pub is_good : HealthCheck → Bytes ⊎ ℤ → Bool
is_good cfg (inl err) = false
is_good cfg (inr status) = good_status cfg.codes status

module _ (valid : Url → Bool) (wire : ℕ → Url → Bytes ⊎ ℤ) (now : ℕ → ℕ) (cfg : HealthCheck) where
  -- A node that the checker asks over the network.
  pub record IsAsked (b : Backend) : Type 0 where
    pub outside : bytes_eq b.url.scheme (codes "internal") ≡ false
    pub fits : valid (check_url cfg b) ≡ true

  node_rounds : ℕ → Backend → Backend
  node_rounds zero b = b
  node_rounds (suc n) b = check_node valid wire now cfg n (node_rounds n b)

  get_elem?-map :
      (f : Backend → Backend) (bs : List Backend) (k : ℕ) (b : Backend)
      → get_elem? bs k ≡ some b
      → get_elem? (map f bs) k ≡ some (f b)
  get_elem?-map f [] k b e = cc
  get_elem?-map f (x ∷ bs) zero b e = cc
  get_elem?-map f (x ∷ bs) (suc k) b e = get_elem?-map f bs k b e

  get_elem?-checks :
      (n : ℕ) (p : Pool) (k : ℕ) (b : Backend)
      → get_elem? p.backends k ≡ some b
      → get_elem? (checks valid wire now cfg n p).backends k ≡ some (node_rounds n b)
  unfolding checks check node_rounds
  get_elem?-checks zero p k b e = e
  get_elem?-checks (suc n) p k b e = get_elem?-map _ _ k _ (get_elem?-checks n p k b e)

  -- A node after a run of rounds that all failed.
  record IsFailing (n : ℕ) (b a : Backend) : Type 0 where
    same : a.url ≡ b.url
    count : a.fails ≡ pos n
    up : a.alive ≡ ltb n (pos_part (at_least_one cfg.fails))

  mark_fail-IsFailing :
      (n : ℕ) (err : Bytes) (at : ℕ) (b a : Backend)
      → n < 2 ^ 62
      → IsFailing n b a
      → IsFailing (suc n) b (mark_fail (some err) cfg.fails at a)
  unfolding mark_fail
  mark_fail-IsFailing n err at b a h v = record {
    same = v.same;
    count = ground (arith, v.count, add64_suc n);
    up = ground (arith, v.count, v.up, add64_suc n);
  }

  mark_answer-IsFailing :
      (n : ℕ) (o : Bytes ⊎ ℤ) (b a : Backend)
      → n < 2 ^ 62
      → is_good cfg o ≡ false
      → IsFailing n b a
      → IsFailing (suc n) b (mark_answer valid wire now cfg n o a)
  unfolding mark_answer
  mark_answer-IsFailing n (inl err) b a h bad v = mark_fail-IsFailing n err (now n) b a h v
  mark_answer-IsFailing n (inr status) b a h bad v =
      rw (mark_answer, bad) (mark_fail-IsFailing n (status_text status) (now n) b a h v)

  -- The marks leave the scheme and the URL that is asked for alone.
  IsAsked-same : (b a : Backend) → a.url ≡ b.url → IsAsked b → IsAsked a
  unfolding check_url
  IsAsked-same b a e v = record { outside = rw e v.outside; fits = rw (check_url, e) v.fits }

  check_node-asked :
      (i : ℕ) (b : Backend)
      → IsAsked b
      → check_node valid wire now cfg i b
        ≡ mark_answer valid wire now cfg i (wire i (check_url cfg b)) b
  unfolding check_node
  check_node-asked i b v = rw (v.outside, v.fits) refl

  node_rounds-IsFailing :
      (n : ℕ) (b : Backend)
      → IsAsked b
      → ((i : ℕ) (u : Url) → is_good cfg (wire i u) ≡ false)
      → b.fails ≡ pos 0
      → b.alive ≡ true
      → n < 2 ^ 62
      → IsFailing n b (node_rounds n b)
  unfolding node_rounds
  node_rounds-IsFailing zero b v bad z up h = record {
    same = refl;
    count = z;
    up = ground (arith, up);
  }
  node_rounds-IsFailing (suc n) b v bad z up h =
      let a = node_rounds n b in
      let ih = node_rounds-IsFailing n b v bad z up (omega arith) in
      rw (check_node-asked n a (IsAsked-same b a ih.same v)) (
        mark_answer-IsFailing n (wire n (check_url cfg a)) b a (omega arith)
          (bad n (check_url cfg a)) ih)

  -- A node of the pool that is up with no failures counted and is asked over the network, while
  -- every round fails, by an error or by its status: it is down from the round on
  -- in which the failures reach the threshold, which counts as 1 if it is lower, and up before.
  pub checks-down :
      (n k : ℕ) (p : Pool) (b : Backend)
      → get_elem? p.backends k ≡ some b
      → IsAsked b
      → ((i : ℕ) (u : Url) → is_good cfg (wire i u) ≡ false)
      → b.fails ≡ pos 0
      → b.alive ≡ true
      → n < 2 ^ 62
      → (a : Backend) × ((get_elem? (checks valid wire now cfg n p).backends k ≡ some a)
          × (a.alive ≡ ltb n (pos_part (at_least_one cfg.fails))))
  checks-down n k p b e v bad z up h =
      let ih = node_rounds-IsFailing n b v bad z up h in
      (node_rounds n b, (get_elem?-checks n p k b e, ih.up))

  -- A node after a run of rounds that were all passed.
  record IsPassing (n : ℕ) (b a : Backend) : Type 0 where
    same : a.url ≡ b.url
    count : a.ok_streak ≡ pos n
    up : a.alive ≡ leb (pos_part (at_least_one cfg.passes)) n

  mark_ok-IsPassing :
      (n : ℕ) (b a : Backend)
      → n < 2 ^ 62
      → IsPassing n b a
      → IsPassing (suc n) b (mark_ok cfg.passes a)
  unfolding mark_ok
  mark_ok-IsPassing n b a h v = record {
    same = ground (arith, v.same);
    count = ground (arith, v.count, add64_suc n);
    up = ground (arith, v.count, v.up, add64_suc n);
  }

  mark_answer-IsPassing :
      (n : ℕ) (o : Bytes ⊎ ℤ) (b a : Backend)
      → n < 2 ^ 62
      → is_good cfg o ≡ true
      → IsPassing n b a
      → IsPassing (suc n) b (mark_answer valid wire now cfg n o a)
  unfolding mark_answer
  mark_answer-IsPassing n (inl err) b a h good v = cc
  mark_answer-IsPassing n (inr status) b a h good v =
      rw (mark_answer, good) (mark_ok-IsPassing n b a h v)

  node_rounds-IsPassing :
      (n : ℕ) (b : Backend)
      → IsAsked b
      → ((i : ℕ) (u : Url) → is_good cfg (wire i u) ≡ true)
      → b.ok_streak ≡ pos 0
      → b.alive ≡ false
      → n < 2 ^ 62
      → IsPassing n b (node_rounds n b)
  unfolding node_rounds
  node_rounds-IsPassing zero b v good z down h = record {
    same = refl;
    count = z;
    up = ground (arith, down);
  }
  node_rounds-IsPassing (suc n) b v good z down h =
      let a = node_rounds n b in
      let ih = node_rounds-IsPassing n b v good z down (omega arith) in
      rw (check_node-asked n a (IsAsked-same b a ih.same v)) (
        mark_answer-IsPassing n (wire n (check_url cfg a)) b a (omega arith)
          (good n (check_url cfg a)) ih)

  -- A node of the pool that is down with no run of passed checks and is asked over the
  -- network, while every round is passed: it is up from the round on in which
  -- the run reaches the required number, which counts as 1 if it is lower, and down before.
  pub checks-up :
      (n k : ℕ) (p : Pool) (b : Backend)
      → get_elem? p.backends k ≡ some b
      → IsAsked b
      → ((i : ℕ) (u : Url) → is_good cfg (wire i u) ≡ true)
      → b.ok_streak ≡ pos 0
      → b.alive ≡ false
      → n < 2 ^ 62
      → (a : Backend) × ((get_elem? (checks valid wire now cfg n p).backends k ≡ some a)
          × (a.alive ≡ leb (pos_part (at_least_one cfg.passes)) n))
  checks-up n k p b e v good z down h =
      let ih = node_rounds-IsPassing n b v good z down h in
      (node_rounds n b, (get_elem?-checks n p k b e, ih.up))
