-- ===== src/Host/Port.antt =====
-- Splitting a port off, as internal/proxy/middleware.go does before it compares host names.
use revproxy.Prelude.{ℕ, ◌≡◌, refl, false, [], ◌∷◌, ◌++◌, none, some, arith, Bytes, has_byte}
use revproxy.Host.{cut_last, split_parts, split_host_port, without_port, host_match}

-- A host name or a port: no colon and no bracket.
abbrev pub IsPlain : Bytes → Type 0
IsPlain s = (has_byte b':' s ≡ false) × (has_byte b'[' s ≡ false) × (has_byte b']' s ≡ false)

cut_last-none : (b : ℕ) (s : Bytes) → has_byte b s ≡ false → cut_last b s ≡ none
unfolding cut_last has_byte
cut_last-none b [] h = refl
cut_last-none b (c ∷ s) h = ground (arith, cut_last-none b s)

pub cut_last-append :
    (b : ℕ) (s t : Bytes) → has_byte b t ≡ false → cut_last b (s ++ b ∷ t) ≡ some (s, t)
unfolding cut_last
cut_last-append b [] t h = ground (arith, cut_last-none b t h)
cut_last-append b (c ∷ s) t h = ground (arith, cut_last-append b s t h)

pub split_parts_plain :
    (host port : Bytes) → IsPlain host → IsPlain port → split_parts host port ≡ some (host, port)
unfolding split_parts has_byte
split_parts_plain [] port h k = ground arith
split_parts_plain (c ∷ host) port h k = ground arith

-- A plain host and a plain port, with a colon between, are split where they were joined.
pub split_host_port-append :
    (host port : Bytes)
    → IsPlain host
    → IsPlain port
    → split_host_port (host ++ b':' ∷ port) ≡ some (host, port)
unfolding split_host_port
split_host_port-append host port h k =
    ground (arith, cut_last-append b':' host port k.0, split_parts_plain host port h k)

without_port_plain : (host : Bytes) → has_byte b':' host ≡ false → without_port host ≡ host
unfolding without_port
without_port_plain host h = ground (arith, cut_last-none b':' host h)

without_port-append :
    (host port : Bytes) → IsPlain host → IsPlain port → without_port (host ++ b':' ∷ port) ≡ host
unfolding without_port
without_port-append host port h k =
    ground (arith, cut_last-append b':' host port k.0, split_parts_plain host port h k)

-- A port on the host of a request makes no difference to whether a pattern fits, whatever the
-- pattern, where host and port have no colon and no bracket.
pub host_match_port :
    (pattern host port : Bytes)
    → IsPlain host
    → IsPlain port
    → host_match pattern (host ++ b':' ∷ port) ≡ host_match pattern host
unfolding host_match
host_match_port [] host port h k = refl
host_match_port (c ∷ pattern) host port h k =
    rw (without_port-append host port h k, without_port_plain host h.0)
