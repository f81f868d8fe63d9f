-- ===== src/Stats/LastMinute.antt =====
-- The counters of the last sixty seconds in internal/stats/stats.go against the history of requests.
use native.Mathlib.Decide.{dec_le, ℕ_discrete}
use revproxy.Prelude.{
  ap, subst, count, count-le, ℕ, zero, suc, ◌+◌, ◌-◌, ◌%◌, ◌^◌, ◌≤◌, ◌<◌, ◌≡◌, ◌≢◌, refl, List, [],
  ◌∷◌, arith, ◌==◌, length, set, get_or, replicate, length-set, Bool-cases, inl, inr, ==_iff, ◌∙◌,
}
use revproxy.Stats.{
  Window, Collector, snapshot, empty_buckets, advance, roll, count_request, bucket_at, series_from,
  series, recent_sum,
}

module _ {ℓ} {A : Type ℓ} where
  pub get_or-set_self :
      (xs : List A) (i : ℕ) (v d : A) → i < length xs → get_or (set xs i v) i d ≡ v
  get_or-set_self [] i v d h = elim h [ ]
  get_or-set_self (x ∷ xs) zero v d h = refl
  get_or-set_self (x ∷ xs) (suc i) v d h = get_or-set_self xs i v d (omega arith)

  pub get_or-set_ne :
      (xs : List A) (i j : ℕ) (v d : A) → i ≢ j → get_or (set xs i v) j d ≡ get_or xs j d
  get_or-set_ne [] i j v d h = refl
  get_or-set_ne (x ∷ xs) zero zero v d h = absurd (h refl)
  get_or-set_ne (x ∷ xs) zero (suc j) v d h = refl
  get_or-set_ne (x ∷ xs) (suc i) zero v d h = refl
  get_or-set_ne (x ∷ xs) (suc i) (suc j) v d h = get_or-set_ne xs i j v d (omega arith)

  pub get_or-replicate : (n j : ℕ) (d : A) → get_or (replicate n d) j d ≡ d
  get_or-replicate zero j d = refl
  get_or-replicate (suc n) zero d = refl
  get_or-replicate (suc n) (suc j) d = get_or-replicate n j d

-- The counters hold the counts of the last sixty seconds, and nothing was counted later.
pub record Counts (hist : List ℕ) (w : Window) : Type 0 where
  pub sixty : length w.buckets ≡ 60
  pub recent :
      (s : ℕ) → s ≤ w.cur_sec → w.cur_sec < s + 60 → get_or w.buckets (s % 60) 0 ≡ count s hist
  pub later : (s : ℕ) → w.cur_sec < s → count s hist ≡ 0

length-advance : (gap cur : ℕ) (bs : List ℕ) → length (advance gap cur bs) ≡ length bs
unfolding advance
length-advance zero cur bs = refl
length-advance (suc gap) cur bs =
    length-advance gap (cur + 1) (set bs ((cur + 1) % 60) 0) ∙ length-set bs _ 0

-- The loop clears exactly the seconds that it passes.
advance_keeps :
    (gap cur s : ℕ) (bs : List ℕ)
    → s ≤ cur
    → cur + gap < s + 60
    → get_or (advance gap cur bs) (s % 60) 0 ≡ get_or bs (s % 60) 0
unfolding advance
advance_keeps zero cur s bs h k = refl
advance_keeps (suc gap) cur s bs h k =
    advance_keeps gap (cur + 1) s _ (omega arith) (omega arith)
    ∙ get_or-set_ne bs _ _ 0 0 (omega arith)

advance_clears :
    (gap cur s : ℕ) (bs : List ℕ)
    → length bs ≡ 60
    → cur < s
    → s ≤ cur + gap
    → gap < 60
    → get_or (advance gap cur bs) (s % 60) 0 ≡ 0
unfolding advance
advance_clears zero cur s bs l h k g = absurd (omega arith)
advance_clears (suc gap) cur s bs l h k g = elim (Bool-cases (s == cur + 1)) [
  | inl e ↦
      advance_keeps gap (cur + 1) s _ (ground arith) (ground arith)
      ∙ rw (← (==_iff _ _).0 e) (get_or-set_self bs (s % 60) 0 0 (omega arith))
  | inr e ↦
      advance_clears gap (cur + 1) s _ (length-set bs _ 0 ∙ l) (ground arith) (omega arith)
        (omega arith)
]

length-empty_buckets : length empty_buckets ≡ 60
unfolding empty_buckets
length-empty_buckets = refl

get_or-empty_buckets : (j : ℕ) → get_or empty_buckets j 0 ≡ 0
unfolding empty_buckets
get_or-empty_buckets j = get_or-replicate 60 j 0

module _ (hist : List ℕ) (w : Window) (sec : ℕ) (h : Counts hist w)
    (forward : w.cur_sec ≤ sec) where
  length-roll : length (roll w sec) ≡ 60
  unfolding roll
  length-roll =
      ground
        (arith, h.sixty, length-empty_buckets, length-advance (sec - w.cur_sec) w.cur_sec w.buckets)

  -- After the clearing, every second of the new window is right.
  roll_recent : (s : ℕ) → s ≤ sec → sec < s + 60 → get_or (roll w sec) (s % 60) 0 ≡ count s hist
  unfolding roll
  roll_recent s a b = elim (dec_le s w.cur_sec) [
    | yes old ↦ ground (
      arith,
      h.recent s,
      get_or-empty_buckets (s % 60),
      advance_keeps (sec - w.cur_sec) w.cur_sec s w.buckets,
    )
    | no new ↦ ground (
      arith,
      h.later s,
      get_or-empty_buckets (s % 60),
      advance_clears (sec - w.cur_sec) w.cur_sec s w.buckets h.sixty,
    )
  ]

  count_request-Counts : length hist < 2 ^ 64 - 1 → Counts (sec ∷ hist) (count_request w sec)
  unfolding count_request
  count_request-Counts room = record {
    sixty = length-set (roll w sec) _ _ ∙ length-roll;
    recent = λ s a b. elim (ℕ_discrete sec s) [
      | yes e ↦ ground (
        arith,
        get_or-set_self (roll w sec) (sec % 60) ((get_or (roll w sec) (sec % 60) 0 + 1) % 2 ^ 64) 0,
        length-roll,
        roll_recent s a b,
        count-le s hist,
        ap (λ t. t % 60) e,
      )
      | no e ↦ ground (
        arith,
        get_or-set_ne (roll w sec) (sec % 60) (s % 60)
            ((get_or (roll w sec) (sec % 60) 0 + 1) % 2 ^ 64) 0,
        roll_recent s a b,
      )
    ];
    later = λ s a. ground (arith, h.later s);
  }

-- The second that was counted last.
abbrev pub newest_of : ℕ → List ℕ → ℕ
newest_of start [] = start
newest_of start (sec ∷ secs) = sec

-- The requests so far, newest first: no second comes before the one that was counted last.
abbrev pub Ascending : ℕ → List ℕ → Type 0
Ascending start [] = Unit {0}
Ascending start (sec ∷ secs) = (newest_of start secs ≤ sec) × Ascending start secs

pub run_window : ℕ → List ℕ → Window
run_window start [] = record { buckets = empty_buckets; cur_sec = start }
run_window start (sec ∷ secs) = count_request (run_window start secs) sec

cur_sec-run_window :
    (start : ℕ) (secs : List ℕ) → (run_window start secs).cur_sec ≡ newest_of start secs
unfolding run_window count_request
cur_sec-run_window start [] = refl
cur_sec-run_window start (sec ∷ secs) = refl

run_window-Counts :
    (start : ℕ) (secs : List ℕ)
    → Ascending start secs
    → length secs < 2 ^ 64
    → Counts secs (run_window start secs)
unfolding run_window
run_window-Counts start [] a l = record {
  sixty = length-empty_buckets;
  recent = λ s _ _. get_or-empty_buckets (s % 60);
  later = λ s _. refl;
}
run_window-Counts start (sec ∷ secs) (a, earlier) l =
    count_request-Counts secs _ sec (run_window-Counts start secs earlier (omega arith))
      (rw (cur_sec-run_window start secs) a) (omega arith)

-- What the series should be: the requests of each second, from `k - 1` seconds ago to `now`.
pub counts_from : List ℕ → ℕ → ℕ → List ℕ
counts_from hist now zero = []
counts_from hist now (suc k) = count (now - k) hist ∷ counts_from hist now k

bucket_at-Counts :
    (hist : List ℕ) (w : Window) (k : ℕ)
    → Counts hist w
    → 60 ≤ w.cur_sec
    → k < 60
    → bucket_at w w.cur_sec k ≡ count (w.cur_sec - k) hist
unfolding bucket_at
bucket_at-Counts hist w k h t l =
    let e : (w.cur_sec + 60 - k) % 60 ≡ (w.cur_sec - k) % 60 = omega arith in
    rw e (h.recent (w.cur_sec - k) (omega arith) (omega arith))

series_from-Counts :
    (hist : List ℕ) (w : Window) (k : ℕ)
    → Counts hist w
    → 60 ≤ w.cur_sec
    → k ≤ 60
    → series_from w w.cur_sec k ≡ counts_from hist w.cur_sec k
unfolding series_from counts_from
series_from-Counts hist w zero h t l = refl
series_from-Counts hist w (suc k) h t l =
    cc (bucket_at-Counts hist w k h t (omega arith), series_from-Counts hist w k h t (omega arith))

newest-ge : (start : ℕ) (secs : List ℕ) → Ascending start secs → start ≤ newest_of start secs
newest-ge start [] a = omega arith
newest-ge start (sec ∷ secs) (a, earlier) = omega (arith, newest-ge start secs earlier)

-- As long as the clock does not run backwards and fewer than 2 ^ 64 requests were counted, a
-- snapshot taken in the second of the newest request reports, for each of the last sixty seconds,
-- exactly the requests of that second.
pub series-run_window :
    (start : ℕ) (secs : List ℕ)
    → 60 ≤ start
    → Ascending start secs
    → length secs < 2 ^ 64
    → let now = newest_of start secs in series (run_window start secs) now ≡ counts_from secs now 60
unfolding series
series-run_window start secs t a l =
    subst (λ now. series_from (run_window start secs) now 60 ≡ counts_from secs now 60)
      (cur_sec-run_window start secs)
      (series_from-Counts secs _ 60 (run_window-Counts start secs a l)
        (rw (cur_sec-run_window start secs) (omega (arith, newest-ge start secs a))) (omega arith))

series_from_stale :
    (w : Window) (now k : ℕ) → k ≤ 60 → series_from w (now + 60) k ≡ series_from w now k
unfolding series_from bucket_at
series_from_stale w now zero h = refl
series_from_stale w now (suc k) h =
    let e : (now + 60 + 60 - k) % 60 ≡ (now + 60 - k) % 60 = omega arith in
    rw (e, series_from_stale w now k (omega arith))

recent_sum_stale :
    (w : Window) (now k : ℕ) → k ≤ 60 → recent_sum w (now + 60) k ≡ recent_sum w now k
unfolding recent_sum bucket_at
recent_sum_stale w now zero h = refl
recent_sum_stale w now (suc k) h =
    let e : (now + 60 + 60 - k) % 60 ≡ (now + 60 - k) % 60 = omega arith in
    rw (e, recent_sum_stale w now k (omega arith))

-- A snapshot takes no notice of how old its counters are: with no request in between, the series
-- and the rate of the last seconds are the same a minute later, so that requests older than a
-- minute are reported as the newest.
pub snapshot_stale :
    (c : Collector) (now : ℕ)
    → ((snapshot c (now + 60)).qps_1m ≡ (snapshot c now).qps_1m)
      × ((snapshot c (now + 60)).qps_sum ≡ (snapshot c now).qps_sum)
unfolding snapshot series
snapshot_stale c now =
    (series_from_stale c.window now 60 (omega arith), recent_sum_stale c.window now 5 (omega arith))
