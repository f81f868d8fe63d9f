-- ===== src/Limiter.antt =====
-- The token bucket of internal/proxy/middleware.go. Times are nanoseconds, a rate is a number of
-- millionths of a token in a second, and tokens are counted in units of 10 ^ -15, in which a
-- nanosecond earns exactly the rate: the rounding of `float64` is left out.
pub mod Bound
mod Tests
use revproxy.Prelude.{
  ℕ, ◌+◌, ◌-◌, ◌*◌, ◌/◌, ◌^◌, Bool, true, false, List, [], ◌∷◌, Option, none, some, ltb, leb,
  if◌then◌else◌, ℤ, pos, pos_part, is_nonpos, Bytes, codes, bytes_eq, is_empty,
}
use revproxy.Config.{Rate}

pub record Bucket : Type 0 where
  pub tokens : ℕ
  pub last : Option ℕ

-- One token.
abbrev pub one : ℕ
one = 10 ^ 15

abbrev pub empty_bucket : Bucket
empty_bucket = record { tokens = 0; last = none }

-- The start of `take`: a bucket that was never used is full.
pub started : ℕ → ℕ → Bucket → ℕ × ℕ
started burst now b = elim b.last [ none ↦ (burst * one, now) | some last ↦ (b.tokens, last) ]

pub refill : ℕ → ℕ → ℕ → ℕ × ℕ → ℕ × ℕ
refill rps burst now (tokens, last) =
    if ltb last now
    then (
      (let more = tokens + (now - last) * rps in
          if ltb (burst * one) more then burst * one else more),
      now,
    )
    else (tokens, last)

pub spend : ℕ × ℕ → Bucket × Bool
spend (tokens, last) =
    if ltb tokens one
    then (record { tokens = tokens; last = some last }, false)
    else (record { tokens = tokens - one; last = some last }, true)

pub take_token : ℕ → ℕ → ℕ → Bucket → Bucket × Bool
unfolding started refill spend
take_token rps burst now b = spend (refill rps burst now (started burst now b))

pub record Limiter : Type 0 where
  pub rps : ℕ
  pub burst : ℕ
  pub per_ip : Bool
  pub shared : Bucket
  pub ips : List (Bytes × Bucket)

pub burst_of : ℕ → ℤ → ℕ
burst_of rps burst =
    if is_nonpos burst
    then (let twice = rps * 2 / 10 ^ 6 in if ltb twice 1 then 1 else twice)
    else pos_part burst

pub new_limiter : Rate → Limiter
unfolding burst_of
new_limiter r =
    let rps = if is_nonpos r.rps then 10 * 10 ^ 6 else pos_part r.rps in
    record {
      rps = rps;
      burst = burst_of rps r.burst;
      per_ip = r.per_ip;
      shared = empty_bucket;
      ips = [];
    }

-- The bucket of a key; a key that is not there gets an empty one, which `take` fills.
pub bucket_of : Bytes → List (Bytes × Bucket) → Bucket
bucket_of key [] = empty_bucket
bucket_of key ((k, b) ∷ m) = if bytes_eq k key then b else bucket_of key m

pub set_bucket : Bytes → Bucket → List (Bytes × Bucket) → List (Bytes × Bucket)
set_bucket key b [] = (key, b) ∷ []
set_bucket key b ((k, c) ∷ m) = if bytes_eq k key then (k, b) ∷ m else (k, c) ∷ set_bucket key b m

abbrev pub key_or_blank : Bytes → Bytes
key_or_blank key = if is_empty key then codes "_" else key

pub allow : Limiter → Bytes → ℕ → Limiter × Bool
unfolding bucket_of set_bucket
allow l key now =
    if l.per_ip
    then (let k = key_or_blank key in
        let (b, fine) = take_token l.rps l.burst now (bucket_of k l.ips) in
        (record l { ips = set_bucket k b l.ips }, fine))
    else (let (b, fine) = take_token l.rps l.burst now l.shared in (record l { shared = b }, fine))

-- Ten minutes, after which `gc` forgets a bucket.
abbrev pub idle_limit : ℕ
idle_limit = 600 * 10 ^ 9

pub is_idle : ℕ → Bucket → Bool
is_idle now b = elim b.last [ none ↦ true | some last ↦ ltb (last + idle_limit) now ]

pub gc : ℕ → List (Bytes × Bucket) → List (Bytes × Bucket)
unfolding is_idle
gc now [] = []
gc now ((k, b) ∷ m) = let rest = gc now m in if is_idle now b then rest else (k, b) ∷ rest
