-- ===== src/Routing/Tests.antt =====
-- Examples for the choice of a route and its target.
use revproxy.Prelude.{List, [], ◌∷◌, codes, arith}
use revproxy.Samples.{a_request, a_matcher, no_regex}
use revproxy.Routing.{Matcher, match_route}
use revproxy.Routing.Ranked.{IsRightChoice, match_route-IsChosen}

abbrev three_routes : List Matcher
three_routes =
    a_matcher 1 (codes "/") ∷ a_matcher 2 (codes "/api") ∷ a_matcher 3 (codes "/api/x") ∷ []

match_route-IsChosen_example :
    IsRightChoice no_regex a_request three_routes (match_route no_regex a_request three_routes)
match_route-IsChosen_example = match_route-IsChosen no_regex a_request three_routes (omega arith)
