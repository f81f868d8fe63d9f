-- ===== src/Stats/Recent.antt =====
-- The ring of access logs in internal/stats/stats.go against the history of its calls.
use native.Mathlib.Nat.{mod-eq_of_lt, add-mod_right, mod_self}
use Prim.Native.Nat.{min}
use native.Mathlib.Numerals.{add-one}
use revproxy.Prelude.{
  ℕ, zero, suc, ◌+◌, ◌-◌, ◌%◌, ◌≤◌, ◌<◌, ◌≡◌, refl, false, List, [], ◌∷◌, ◌++◌, some, arith, ltb,
  if◌then◌else◌, length, set, get_elem?, take, drop, ℤ, pos, negsuc, length-append, length-set,
  get_elem?-set_self, get_elem?-set_ne, Bool-cases, inl, inr, ◌==◌, ltb→lt, ==_iff, ◌∙◌,
}
use revproxy.Stats.{AccessLog, Ring, new_ring, push_log, collect, clamp_limit, logs, clear}

-- Where the entry that is `i` back from the newest stands among `n`: by the source's index, and
-- with no remainder.
abbrev slot : ℕ → ℕ → ℕ → ℕ
slot p n i = (p + n - 1 - i + n) % n

abbrev back : ℕ → ℕ → ℕ → ℕ
back p n i = if ltb i p then p - 1 - i else p + n - 1 - i

slot_near : (p n i : ℕ) → p < n → i < p → slot p n i ≡ p - 1 - i
slot_near p n i h k =
    let e : p + n - 1 - i + n ≡ p - 1 - i + n + n = omega arith in
    rw e
      (add-mod_right (p - 1 - i + n) n ∙ add-mod_right (p - 1 - i) n ∙ mod-eq_of_lt (omega arith))

slot_far : (p n i : ℕ) → p < n → i < n → p ≤ i → slot p n i ≡ p + n - 1 - i
slot_far p n i h k far = add-mod_right (p + n - 1 - i) n ∙ mod-eq_of_lt (omega arith)

slot_lem : (p n i : ℕ) → p < n → i < n → slot p n i ≡ back p n i
slot_lem p n i h k = ground (arith, slot_near p n i h, slot_far p n i h k)

get_elem?-append {ℓ} :
    {A : Type ℓ} (xs ys : List A) (i : ℕ) → i < length xs → get_elem? (xs ++ ys) i ≡ get_elem? xs i
get_elem?-append [] ys i h = elim h [ ]
get_elem?-append (x ∷ xs) ys zero h = refl
get_elem?-append (x ∷ xs) ys (suc i) h = get_elem?-append xs ys i (omega arith)

get_elem?-append_last {ℓ} :
    {A : Type ℓ} (xs : List A) (y : A) → get_elem? (xs ++ y ∷ []) (length xs) ≡ some y
get_elem?-append_last [] y = refl
get_elem?-append_last (x ∷ xs) y = get_elem?-append_last xs y

-- `r` stands for the history `hist`, newest entry first.
pub record Holds (hist : List AccessLog) (r : Ring) : Type 0 where
  pub roomy : 0 < r.log_cap
  pub within : length r.logs ≤ r.log_cap
  pub enough : length r.logs ≤ length hist
  pub all : length r.logs < r.log_cap → length hist ≡ length r.logs
  pub young : length r.logs < r.log_cap → r.log_pos ≡ 0
  pub placed : r.log_pos < r.log_cap
  pub newest :
      (i : ℕ)
      → i < length r.logs
      → get_elem? r.logs (back r.log_pos (length r.logs) i) ≡ get_elem? hist i

module _ (hist : List AccessLog) (r : Ring) (l : AccessLog) (h : Holds hist r) where
  room_newest :
      length r.logs < r.log_cap
      → (i : ℕ) (n : ℕ) → n ≡ length r.logs + 1
      → i < n
      → get_elem? (r.logs ++ l ∷ []) (back r.log_pos n i) ≡ get_elem? (l ∷ hist) i
  room_newest t zero n e k =
      let first : back r.log_pos n 0 ≡ length r.logs = ground (arith, h.young t) in
      rw first (get_elem?-append_last r.logs l)
  room_newest t (suc i) n e k =
      let older : back r.log_pos n (suc i) ≡ back r.log_pos (length r.logs) i =
        ground (arith, h.young t) in
      rw older
        (get_elem?-append r.logs (l ∷ []) _ (ground (arith, h.young t)) ∙ h.newest i (omega arith))

  full_newest :
      length r.logs ≡ r.log_cap
      → (p : ℕ) → (p ≡ (if r.log_pos + 1 == r.log_cap then 0 else r.log_pos + 1))
      → (i : ℕ) → i < length r.logs
      → get_elem? (set r.logs r.log_pos l) (back p (length r.logs) i) ≡ get_elem? (l ∷ hist) i
  full_newest t p e zero k =
      let first : back p (length r.logs) 0 ≡ r.log_pos = ground (arith, h.placed) in
      rw first (get_elem?-set_self r.logs r.log_pos l (omega (arith, h.placed)))
  full_newest t p e (suc i) k =
      let older : back p (length r.logs) (suc i) ≡ back r.log_pos (length r.logs) i =
        ground (arith, h.placed) in
      rw older (get_elem?-set_ne r.logs l (ground (arith, h.placed)) ∙ h.newest i (omega arith))

  next_pos : (r.log_pos + 1) % r.log_cap ≡ (if r.log_pos + 1 == r.log_cap then 0 else r.log_pos + 1)
  next_pos = elim (Bool-cases (r.log_pos + 1 == r.log_cap)) [
    | inl t ↦ rw t (rw ((==_iff _ _).0 t) (mod_self r.log_cap))
    | inr t ↦ rw t (mod-eq_of_lt (ground (arith, h.placed)))
  ]

  full_length : ltb (length r.logs) r.log_cap ≡ false → length r.logs ≡ r.log_cap
  full_length t = ground (arith, h.within)

  is_full : ltb (length r.logs) r.log_cap ≡ false → length (set r.logs r.log_pos l) < r.log_cap → ⊥
  is_full t k = omega (arith, length-set r.logs r.log_pos l, full_length t)

  pub push_log-Holds : Holds (l ∷ hist) (push_log r l)
  unfolding push_log
  push_log-Holds = elim (Bool-cases (ltb (length r.logs) r.log_cap)) [
    | inl t ↦ rw t (record {
      roomy = h.roomy;
      within = omega (arith, length-append r.logs (l ∷ []), ltb→lt _ _ t);
      enough = omega (arith, length-append r.logs (l ∷ []), h.enough);
      all = λ k. omega (arith, length-append r.logs (l ∷ []), h.all (ltb→lt _ _ t));
      young = λ k. h.young (ltb→lt _ _ t);
      placed = h.placed;
      newest = λ i k. room_newest (ltb→lt _ _ t) i _ (length-append r.logs (l ∷ [])) k;
    })
    | inr t ↦ rw t (record {
      roomy = h.roomy;
      within = omega (arith, length-set r.logs r.log_pos l, h.within);
      enough = omega (arith, length-set r.logs r.log_pos l, h.enough);
      all = λ k. absurd (is_full t k);
      young = λ k. absurd (is_full t k);
      placed = rw next_pos (ground (arith, h.placed));
      newest = λ i k.
          rw (length-set r.logs r.log_pos l) (
            full_newest (full_length t) _ next_pos i
              (omega (arith, length-set r.logs r.log_pos l)));
    })
  ]

pub new_ring-Holds : (capacity : ℤ) → Holds [] (new_ring capacity)
new_ring-Holds (pos n) = record {
  roomy = ground arith;
  within = omega arith;
  enough = omega arith;
  all = λ k. refl;
  young = λ k. refl;
  placed = ground arith;
  newest = λ i k. elim k [ ];
}
new_ring-Holds (negsuc n) = record {
  roomy = omega arith;
  within = omega arith;
  enough = omega arith;
  all = λ k. refl;
  young = λ k. refl;
  placed = omega arith;
  newest = λ i k. elim k [ ];
}

pub clear-Holds : (hist : List AccessLog) (r : Ring) → Holds hist r → Holds [] (clear r)
unfolding clear
clear-Holds hist r h = record {
  roomy = h.roomy;
  within = omega arith;
  enough = omega arith;
  all = λ k. refl;
  young = λ k. refl;
  placed = h.roomy;
  newest = λ i k. elim k [ ];
}

take-drop :
    (hist : List AccessLog) (i k : ℕ) (l : AccessLog)
    → get_elem? hist i ≡ some l
    → take (suc k) (drop i hist) ≡ l ∷ take k (drop (suc i) hist)
take-drop [] i k l e = cc
take-drop (x ∷ hist) zero k l e = ground arith
take-drop (x ∷ hist) (suc i) k l e = take-drop hist i k l e

get_elem?-some :
    (hist : List AccessLog) (i : ℕ)
    → i < length hist
    → (l : AccessLog) × (get_elem? hist i ≡ some l)
get_elem?-some [] i h = elim h [ ]
get_elem?-some (x ∷ hist) zero h = (x, refl)
get_elem?-some (x ∷ hist) (suc i) h = get_elem?-some hist i (omega arith)

collect-eq-take :
    (hist : List AccessLog) (r : Ring) (rounds i : ℕ)
    → Holds hist r
    → i + rounds ≤ length r.logs
    → collect r rounds i ≡ some (take rounds (drop i hist))
unfolding collect
collect-eq-take hist r zero i h k = refl
collect-eq-take hist r (suc rounds) i h k =
    let (l, e) = get_elem?-some hist i (omega (arith, h.enough)) in
    let rest : collect r rounds (i + 1) ≡ some (take rounds (drop (suc i) hist)) =
      rw (← add-one i) (collect-eq-take hist r rounds (i + 1) h (omega arith)) in
    let placed : r.log_pos < length r.logs = ground (arith, h.young, h.placed, h.within) in
    let found : get_elem? r.logs (slot r.log_pos (length r.logs) i) ≡ some l =
      rw (slot_lem _ _ i placed (omega arith)) (h.newest i (omega arith) ∙ e) in
    ground (arith, found, rest, take-drop hist i rounds l e)

pub clamp_limit-le : (limit : ℤ) (n : ℕ) → 0 + clamp_limit limit n ≤ n
unfolding clamp_limit
clamp_limit-le (pos k) n = ground arith
clamp_limit-le (negsuc k) n = omega arith

-- The calls on the ring, newest first, and what was logged since the last `Clear`.
pub data LogCall : Type 0 where
  pushed : AccessLog → LogCall
  cleared : LogCall

pub run_ring : ℤ → List LogCall → Ring
run_ring capacity [] = new_ring capacity
run_ring capacity (pushed l ∷ calls) = push_log (run_ring capacity calls) l
run_ring capacity (cleared ∷ calls) = clear (run_ring capacity calls)

pub since_clear : List LogCall → List AccessLog
since_clear [] = []
since_clear (pushed l ∷ calls) = l ∷ since_clear calls
since_clear (cleared ∷ calls) = []

run_ring-Holds :
    (capacity : ℤ) (calls : List LogCall) → Holds (since_clear calls) (run_ring capacity calls)
unfolding run_ring since_clear
run_ring-Holds capacity [] = new_ring-Holds capacity
run_ring-Holds capacity (pushed l ∷ calls) = push_log-Holds _ _ l (run_ring-Holds capacity calls)
run_ring-Holds capacity (cleared ∷ calls) = clear-Holds _ _ (run_ring-Holds capacity calls)

log_cap-run_ring :
    (capacity : ℤ) (calls : List LogCall)
    → (run_ring capacity calls).log_cap ≡ (new_ring capacity).log_cap
unfolding run_ring push_log clear
log_cap-run_ring capacity [] = refl
log_cap-run_ring capacity (pushed l ∷ calls) = ground (arith, log_cap-run_ring capacity calls)
log_cap-run_ring capacity (cleared ∷ calls) = log_cap-run_ring capacity calls

length-run_ring :
    (capacity : ℤ) (calls : List LogCall)
    → length (run_ring capacity calls).logs
      ≡ min (new_ring capacity).log_cap (length (since_clear calls))
length-run_ring capacity calls =
    let h = run_ring-Holds capacity calls in
    ground (arith, h.all, h.within, h.enough, log_cap-run_ring capacity calls)

-- `Logs` never leaves the ring, whatever was logged and cleared before: it answers the entries
-- since the last `Clear`, newest first, as many as the limit allows out of the newest that fit
-- the capacity.
pub logs-run_ring :
    (capacity limit : ℤ) (calls : List LogCall)
    → let kept = min (new_ring capacity).log_cap (length (since_clear calls)) in
      logs (run_ring capacity calls) limit
      ≡ some (take (clamp_limit limit kept) (since_clear calls))
unfolding logs
logs-run_ring capacity limit calls =
    rw (← length-run_ring capacity calls)
      (collect-eq-take _ _ _ 0 (run_ring-Holds capacity calls) (clamp_limit-le limit _))
