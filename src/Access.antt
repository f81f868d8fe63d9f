-- ===== src/Access.antt =====
-- The address lists of internal/proxy/middleware.go. What it uses of package `net` is an interface.
pub mod Covered
mod Tests
use revproxy.Prelude.{
  ℕ, Bool, true, false, ◌&&◌, ◌||◌, not, List, [], ◌∷◌, Option, none, some, if◌then◌else◌, Bytes,
  codes, bytes_eq, is_empty, has_byte,
}
use revproxy.Host.{trim_space}

-- net.ParseIP, IP.String, net.ParseCIDR and IPNet.Contains, `none` for an error.
pub record Net : Type 1 where
  pub Ip : Type 0
  pub Block : Type 0
  pub parse_ip : Bytes → Option Ip
  pub show_ip : Ip → Bytes
  pub parse_cidr : Bytes → Option Block
  pub in_block : Block → Ip → Bool

module _ (n : Net) where
  pub record IpMatcher : Type 0 where
    pub nets : List n.Block
    pub singles : List Bytes

  pub add_single : Bytes → IpMatcher → IpMatcher
  add_single item m = elim (n.parse_ip item) [
    | none ↦ m
    | some ip ↦ record m { singles = n.show_ip ip ∷ m.singles }
  ]

  -- One item, without the blanks around it.
  pub add_item : Bytes → IpMatcher → IpMatcher
  unfolding add_single
  add_item item m =
      if is_empty item
      then m
      else if has_byte b'/' item
      then (elim (n.parse_cidr item) [
        | none ↦ add_single item m
        | some b ↦ record m { nets = b ∷ m.nets }
      ])
      else add_single item m

  pub new_ip_matcher : List Bytes → IpMatcher
  unfolding add_item
  new_ip_matcher [] = record { nets = []; singles = [] }
  new_ip_matcher (item ∷ items) = add_item (trim_space item) (new_ip_matcher items)

  unfoldable pub matcher_empty : IpMatcher → Bool
  matcher_empty m = elim m.nets [
    | _ ∷ _ ↦ false
    | [] ↦ elim m.singles [ [] ↦ true | _ ∷ _ ↦ false ]
  ]

  pub any_single : Bytes → List Bytes → Bool
  any_single s [] = false
  any_single s (t ∷ ts) = bytes_eq t s || any_single s ts

  pub any_net : n.Ip → List n.Block → Bool
  any_net ip [] = false
  any_net ip (b ∷ bs) = n.in_block b ip || any_net ip bs

  -- IPMatcher.Match
  unfoldable pub match_ip : IpMatcher → Bytes → Bool
  unfolding matcher_empty any_single any_net
  match_ip m ip = if matcher_empty m then false else (elim (n.parse_ip ip) [
    | none ↦ false
    | some a ↦ any_single (n.show_ip a) m.singles || any_net a m.nets
  ])
