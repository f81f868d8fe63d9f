-- ===== src/Forward/Body.antt =====
-- The body of a response that `RoundTrip` hands out, `countBody` of internal/proxy/engine.go: the first
-- `Close` takes the connection off the gauge of its node.
use revproxy.Prelude.{
  ℕ, zero, suc, Bool, true, false, if◌then◌else◌, [], ◌∷◌, negsuc, Option, none, some,
}
use revproxy.Pool.{Pool}
use revproxy.Forward.{Forward, on_node, add_conns}

-- `once` says whether `done` has been called.
pub record CountBody : Type 0 where
  pub node : ℕ
  pub once : Bool

-- The body of a response, which belongs to the node that the last request went to.
unfoldable pub body_of : Forward → Option CountBody
body_of t = elim t.sent [ [] ↦ none | (k, _) ∷ _ ↦ some (record { node = k; once = false }) ]

unfoldable pub close : CountBody → Pool → CountBody × Pool
unfolding on_node add_conns
close b p =
    if b.once then (b, p) else (record b { once = true }, on_node (add_conns (negsuc 0)) b.node p)

-- Several calls of `Close`.
unfoldable pub closes : ℕ → CountBody → Pool → Pool
unfolding close
closes zero b p = p
closes (suc n) b p = let (c, q) = close b p in closes n c q
