-- ===== src/Access/Tests.antt =====
-- An example for the address lists.
use revproxy.Prelude.{◌≡◌, List, [], ◌∷◌, Bytes, codes}
use revproxy.Samples.{text_net}
use revproxy.Access.{new_ip_matcher, match_ip}
use revproxy.Access.Covered.{some_covers, match_ip-new_ip_matcher}

abbrev two_items : List Bytes
two_items = codes " 1.2.3.4 " ∷ codes "10.0.0.0/8" ∷ []

match_ip-new_ip_matcher_example :
    match_ip text_net (new_ip_matcher text_net two_items) (codes "10.9.9.9")
    ≡ some_covers text_net two_items (codes "10.9.9.9")
match_ip-new_ip_matcher_example = match_ip-new_ip_matcher text_net two_items (codes "10.9.9.9")
