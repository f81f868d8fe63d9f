-- ===== src/Forward/Tests.antt =====
-- An example for the retries.
use revproxy.Prelude.{
  trim_right, ◌≡◌, [], ◌∷◌, ◌≤◌, refl, length, ℕ, ◌⊎◌, inl, inr, false, some, Bytes, codes, add64,
  arith, if◌then◌else◌, ◌==◌,
}
use revproxy.Samples.{a_route, a_url, node, a_pool}
use revproxy.Backend.{Backend, Url}
use revproxy.Forward.Gauges.{AreRestored, round_trip-AreRestored}
use revproxy.Forward.{Forward, Outcome, round_trip, attempts_of}
use revproxy.Forward.Piled.{paths, piles, round_trip-piles}
use revproxy.Routing.{apply_out_url}
use revproxy.Pool.{Pool}
use revproxy.Forward.Retry.{IsDistinct, IsExhausted, keys, round_trip-IsOrderly}

-- The first node does not answer.
abbrev second_answers : ℕ → Backend → Url → Bytes ⊎ ℕ
second_answers i b url = if b.key == 1 then inl (codes "refused") else inr 200

abbrev still : ℕ → ℕ
still i = 5

round_trip-IsOrderly_example :
    let (t, o) =
      round_trip second_answers still still
        (codes "10.0.0.1")
        a_route
        false
        (some (node 1 3))
        a_pool
        (a_url (codes "a") (codes "/api")) in
    (length t.sent ≤ attempts_of a_route false)
    × (IsDistinct (keys t.sent) × IsExhausted (attempts_of a_route false) t o)
unfolding attempts_of add64
round_trip-IsOrderly_example =
    round_trip-IsOrderly second_answers still still (codes "10.0.0.1") a_route false (node 1 3)
      a_pool (a_url (codes "a") (codes "/api")) (λ j. omega arith) (omega arith)

round_trip-AreRestored_example : AreRestored 2 a_pool (
    round_trip second_answers still still
      (codes "10.0.0.1")
      a_route
      false
      (some (node 1 3))
      a_pool
      (a_url (codes "a") (codes "/api")))
round_trip-AreRestored_example =
    round_trip-AreRestored second_answers still still (codes "10.0.0.1") a_route false
      (some (node 1 3)) a_pool (a_url (codes "a") (codes "/api")) 1 (refl, (refl, tt)) (omega arith)

-- A first node with the base path /v1 and a second one with /v2.
abbrev base_of : ℕ → Bytes
base_of k = if k == 1 then codes "/v1" else codes "/v2"

abbrev based : ℕ → Backend
based k = record (node k 1) { url = a_url (codes "a") (base_of k) }

abbrev based_pool : Pool
based_pool = record a_pool { backends = based 1 ∷ based 2 ∷ [] }

abbrev asked : Forward × Outcome ℕ
asked =
    round_trip second_answers still still (codes "10.0.0.1") a_route false (some (based 1))
      based_pool (apply_out_url a_route (based 1).url (a_url (codes "example.com") (codes "/api")))

round_trip-piles_example : paths asked.0.sent ≡ piles base_of (codes "/api") (keys asked.0.sent)
unfolding trim_right
round_trip-piles_example =
    round_trip-piles base_of (codes "/api") second_answers still still (codes "10.0.0.1") a_route
      refl refl false (based 1) based_pool (a_url (codes "example.com") (codes "/api"))
      (refl, (refl, (refl, tt))) refl
