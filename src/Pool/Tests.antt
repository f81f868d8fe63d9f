-- ===== src/Pool/Tests.antt =====
-- Examples for the choice of a node.
use revproxy.Prelude.{◌≡◌, refl, [], ◌∷◌, codes, arith}
use revproxy.Samples.{two_nodes, a_pool}
use revproxy.Pool.{next, fnv32}
use revproxy.Pool.Next.{IsRight, next-IsRight}
use revproxy.Pool.Weighted.{sum_weights}
use revproxy.Pool.Fairness.{rounds, IsServed, rounds_fair}

next-IsRight_example : IsRight (1 ∷ []) two_nodes (next 5 (codes "10.0.0.1") (1 ∷ []) a_pool).1
next-IsRight_example = next-IsRight 5 (codes "10.0.0.1") (1 ∷ []) a_pool (omega arith) (omega arith)

rounds_fair_example :
    IsServed (rounds (sum_weights two_nodes) two_nodes).1 0 two_nodes
    × ((rounds (sum_weights two_nodes) two_nodes).0 ≡ two_nodes)
rounds_fair_example =
    rounds_fair two_nodes (refl, refl, (refl, refl, tt)) (omega arith) (omega arith)

fnv32_of_a : fnv32 (codes "a") ≡ 3826002220
unfolding fnv32
fnv32_of_a = refl
