-- ===== src/Access/Covered.antt =====
-- What an address list of internal/proxy/middleware.go means.
use revproxy.Prelude.{
  ◌≡◌, refl, ap, ◌∙◌, Bool, true, false, ◌&&◌, ◌||◌, not, List, [], ◌∷◌, none, some, arith,
  if◌then◌else◌, Bytes, bytes_eq, is_empty, has_byte, Option-cases, inl, inr,
}
use revproxy.Host.{trim_space}
use revproxy.Access.{
  Net, IpMatcher, add_single, add_item, new_ip_matcher, matcher_empty, any_single, any_net,
  match_ip,
}

module _ (n : Net) where
  -- An item means the block that it spells, if it has a slash and spells one, and else the address.
  abbrev pub same_ip : Bytes → n.Ip → Bool
  same_ip item a = elim (n.parse_ip item) [
    | none ↦ false
    | some b ↦ bytes_eq (n.show_ip b) (n.show_ip a)
  ]

  abbrev pub covers : Bytes → n.Ip → Bool
  covers item a =
      not (is_empty item)
      && (if has_byte b'/' item
          then (elim (n.parse_cidr item) [ none ↦ same_ip item a | some b ↦ n.in_block b a ])
          else same_ip item a)

  abbrev pub some_covers : List Bytes → n.Ip → Bool
  some_covers [] a = false
  some_covers (item ∷ items) a = covers (trim_space item) a || some_covers items a

  hits : IpMatcher n → n.Ip → Bool
  hits m a = any_single n (n.show_ip a) m.singles || any_net n a m.nets

  add_item-hits :
      (item : Bytes) (m : IpMatcher n) (a : n.Ip)
      → hits (add_item n item m) a ≡ covers item a || hits m a
  unfolding hits add_item add_single any_single any_net
  add_item-hits item m a = ground arith

  new_ip_matcher-hits :
      (items : List Bytes) (a : n.Ip) → hits (new_ip_matcher n items) a ≡ some_covers items a
  unfolding hits new_ip_matcher any_single any_net
  new_ip_matcher-hits [] a = refl
  new_ip_matcher-hits (item ∷ items) a =
      add_item-hits (trim_space item) (new_ip_matcher n items) a
      ∙ ap (λ (x : Bool). covers (trim_space item) a || x) (new_ip_matcher-hits items a)

  empty-hits : (m : IpMatcher n) (a : n.Ip) → matcher_empty n m ≡ true → hits m a ≡ false
  unfolding hits matcher_empty any_single any_net
  empty-hits m a e = ground arith

  -- A list matches exactly the addresses that one of its items means: an item with a slash that spells a block means
  -- the addresses in it, any other item the address that it spells, and blank or malformed
  -- items mean nothing; a text that is no address is never matched.
  pub match_ip-new_ip_matcher :
      (items : List Bytes) (ip : Bytes)
      → match_ip n (new_ip_matcher n items) ip
        ≡ elim (n.parse_ip ip) [ none ↦ false | some a ↦ some_covers items a ]
  unfolding match_ip hits
  match_ip-new_ip_matcher items ip = elim (Option-cases (n.parse_ip ip)) [
    | inl e ↦ ground arith
    | inr (a, e) ↦
        ground (arith, new_ip_matcher-hits items a, empty-hits (new_ip_matcher n items) a)
  ]
