-- ===== src/Pool.antt =====
-- Load balancing in internal/proxy/upstream.go. A node is known by its address `key`, a pool keeps
-- its nodes in order, and an `exclude` set is a list of addresses. `int` has 64 bits.
pub mod Choice
pub mod Next
pub mod Answer
pub mod Gauges
pub mod Bases
pub mod Weighted
pub mod Cursors
pub mod Fairness
mod Tests
use Prim.Native.Nat.{bit_xor}
use revproxy.Prelude.{
  ℕ, zero, suc, ◌+◌, ◌-◌, ◌*◌, ◌%◌, ◌^◌, Bool, true, false, ◌&&◌, not, List, [], ◌∷◌, Option, none,
  some, ltb, ◌==◌, if◌then◌else◌, length, get_elem?, map, ℤ, pos, add64, sub64, ltb_ℤ, ◌*ℤ◌, Bytes,
  codes, bytes_eq, is_empty,
}
use revproxy.Backend.{Backend}

pub record Pool : Type 0 where
  pub strategy : Bytes
  pub backends : List Backend
  pub rr : ℕ

unfoldable pub new_pool : Bytes → List Backend → Pool
new_pool strategy bs = record {
  strategy = if is_empty strategy then codes "round_robin" else strategy;
  backends = bs;
  rr = 0;
}

-- What `Next` answers; `panics` is an index out of range.
pub data Pick : Type 0 where
  nobody : Pick
  picked : Backend → Pick
  panics : Pick

unfoldable pub has_key : ℕ → List ℕ → Bool
has_key k [] = false
has_key k (x ∷ xs) = if x == k then true else has_key k xs

-- The two loops that collect candidates: with `backups` the second, else the first.
unfoldable pub is_candidate : Bool → List ℕ → Backend → Bool
is_candidate backups exclude b =
    not (has_key b.key exclude) && (b.alive && (if backups then true else not b.backup))

unfoldable pub collect : Bool → List ℕ → List Backend → List Backend
unfolding is_candidate
collect backups exclude [] = []
collect backups exclude (b ∷ bs) =
    let rest = collect backups exclude bs in
    if is_candidate backups exclude b then b ∷ rest else rest

unfoldable pub or_backups : List Backend → List Backend → List Backend
or_backups [] second = second
or_backups (b ∷ first) second = b ∷ first

unfoldable pub candidates : List ℕ → List Backend → List Backend
unfolding or_backups
candidates exclude bs = or_backups (collect false exclude bs) (collect true exclude bs)

-- cands[i], and cands[int(u) % len(cands)] for an unsigned 64-bit `u`: from 2 ^ 63 on `int(u)` is
-- negative, and so is its remainder unless that is 0.
unfoldable pub at : List Backend → ℕ → Pick
at cands i = elim (get_elem? cands i) [ none ↦ panics | some b ↦ picked b ]

unfoldable pub at_int : List Backend → ℕ → Pick
unfolding at
at_int cands u =
    if ltb u (2 ^ 63)
    then at cands (u % length cands)
    else if (2 ^ 64 - u) % length cands == 0
    then at cands 0
    else panics

-- fnv32
pub fnv32_from : ℕ → Bytes → ℕ
fnv32_from h [] = h
fnv32_from h (c ∷ s) = fnv32_from ((bit_xor h c * 16777619) % 2 ^ 32) s

pub fnv32 : Bytes → ℕ
unfolding fnv32_from
fnv32 s = fnv32_from 2166136261 s

-- conns / weight < conns' / weight' for positive weights, without rounding.
pub lighter : Backend → Backend → Bool
unfolding ◌*ℤ◌
lighter b best = ltb_ℤ (b.conns *ℤ best.weight) (best.conns *ℤ b.weight)

pub least_conn : Backend → List Backend → Backend
unfolding lighter
least_conn best [] = best
least_conn best (b ∷ bs) = least_conn (if lighter b best then b else best) bs

-- The loop of `smoothWeighted`: every candidate gains its weight, and the first with the greatest
-- value is found by its place.
pub gain : Backend → Backend
gain b = record b { cur_w = add64 b.cur_w b.weight }

pub total_weight : ℤ → List Backend → ℤ
total_weight total [] = total
total_weight total (b ∷ bs) = total_weight (add64 total b.weight) bs

pub heaviest : ℕ → ℕ → ℤ → List Backend → ℕ
heaviest i best value [] = best
heaviest i best value (b ∷ bs) =
    let more = ltb_ℤ value b.cur_w in
    heaviest (i + 1) (if more then i else best) (if more then b.cur_w else value) bs

pub heaviest_of : List Backend → ℕ
unfolding heaviest
heaviest_of [] = 0
heaviest_of (b ∷ bs) = heaviest 1 0 b.cur_w bs

-- The chosen node pays the total.
pub pay : ℕ → ℤ → List Backend → List Backend
pay i total [] = []
pay zero total (b ∷ bs) = record b { cur_w = sub64 b.cur_w total } ∷ bs
pay (suc i) total (b ∷ bs) = b ∷ pay i total bs

-- The candidates afterwards, and the place of the chosen one.
pub smooth_weighted : List Backend → List Backend × ℕ
unfolding gain total_weight heaviest_of pay
smooth_weighted cands =
    let gained = map gain cands in
    let best = heaviest_of gained in (pay best (total_weight (pos 0) cands) gained, best)

-- The candidates are the nodes of the pool themselves.
pub find_key : ℕ → List Backend → Option Backend
find_key k [] = none
find_key k (b ∷ bs) = if b.key == k then some b else find_key k bs

pub write_back : List Backend → List Backend → List Backend
unfolding find_key
write_back cands [] = []
write_back cands (b ∷ bs) =
    elim (find_key b.key cands) [ none ↦ b | some c ↦ c ] ∷ write_back cands bs

-- The switch on the strategy, for at least one candidate; `clock` is the time in nanoseconds.
unfoldable pub select : ℕ → Bytes → Pool → Backend → List Backend → Pool × Pick
unfolding at at_int fnv32 least_conn smooth_weighted write_back
select clock client_ip p b bs =
    let cands = b ∷ bs in
    if bytes_eq p.strategy (codes "random")
    then (p, at_int cands clock)
    else if bytes_eq p.strategy (codes "least_conn")
    then (p, picked (least_conn b bs))
    else if bytes_eq p.strategy (codes "ip_hash")
    then (p, at cands (fnv32 client_ip % length cands))
    else if bytes_eq p.strategy (codes "weighted")
    then (
      record p { backends = write_back (smooth_weighted cands).0 p.backends },
      at (smooth_weighted cands).0 (smooth_weighted cands).1,
    )
    else (record p { rr = (p.rr + 1) % 2 ^ 64 }, at_int cands ((p.rr + 1) % 2 ^ 64))

unfoldable pub select_from : ℕ → Bytes → Pool → List Backend → Pool × Pick
unfolding select
select_from clock client_ip p [] = (p, nobody)
select_from clock client_ip p (b ∷ bs) = select clock client_ip p b bs

unfoldable pub next : ℕ → Bytes → List ℕ → Pool → Pool × Pick
unfolding candidates select_from
next clock client_ip exclude p = select_from clock client_ip p (candidates exclude p.backends)
