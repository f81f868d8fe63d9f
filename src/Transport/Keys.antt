-- ===== src/Transport/Keys.antt =====
-- What the key of a transport tells of its proxy, internal/socks/socks5.go.
use revproxy.Prelude.{
  ℕ, ◌≡◌, ◌≢◌, ◌⊎◌, inl, inr, refl, sym, ap, ◌∙◌, Bool, true, false, [], ◌∷◌, ◌++◌, ℤ, Option, none,
  some, arith, Bytes, codes, has_byte, Bool-cases, cut_at, cut_at-append,
}
use revproxy.Backend.{SocksConfig}
use revproxy.Socks.{Conn, ok, Ip}
use revproxy.Socks.Dial.{
  is_direct, dial_limit, dial_by_type, on_connection, dial_proxy, dial_context,
}
use revproxy.Transport.{proxy_key}

-- No bar in the parts of a proxy that another part follows in its key.
abbrev pub HasNoBar : Option SocksConfig → Type 0
HasNoBar none = Unit {0}
HasNoBar (some c) =
    (has_byte b'|' c.proxy_type ≡ false)
    × ((has_byte b'|' c.addr ≡ false) × (has_byte b'|' c.username ≡ false))

-- The same in all but the time limit.
abbrev pub IsSameProxy : SocksConfig → SocksConfig → Type 0
IsSameProxy c d =
    (c.proxy_type ≡ d.proxy_type)
    × ((c.addr ≡ d.addr) × ((c.username ≡ d.username) × (c.password ≡ d.password)))

-- Both for a direct connection, or the same.
abbrev pub Agrees : Option SocksConfig → Option SocksConfig → Type 0
Agrees a b =
    ((is_direct a ≡ true) × (is_direct b ≡ true))
    ⊎ ((c d : SocksConfig) × ((a ≡ some c) × ((b ≡ some d) × IsSameProxy c d)))

-- Two texts that are cut at the first bar are equal in both parts.
cut-eq :
    (s t u v : Bytes)
    → has_byte b'|' s ≡ false
    → has_byte b'|' t ≡ false
    → s ++ b'|' ∷ u ≡ t ++ b'|' ∷ v
    → (s ≡ t) × (u ≡ v)
cut-eq s t u v hs ht e =
    let f = cut_at-append b'|' s u hs in
    let g = cut_at-append b'|' t v ht in let k = ap (cut_at b'|') e in (cc, cc)

has_byte-append_self : (b : ℕ) (s t : Bytes) → has_byte b (s ++ b ∷ t) ≡ true
unfolding has_byte
has_byte-append_self b [] t = ground arith
has_byte-append_self b (c ∷ s) t = ground (arith, has_byte-append_self b s t)

-- No other proxy has the key of a direct connection.
direct_alone : (s t : Bytes) → codes "direct" ≢ s ++ b'|' ∷ t
unfolding has_byte
direct_alone s t e = cc (has_byte-append_self b'|' s t, e)

parts_key : SocksConfig → Bytes
parts_key c = c.proxy_type ++ b'|' ∷ (c.addr ++ b'|' ∷ (c.username ++ b'|' ∷ c.password))

parts-IsSame :
    (c d : SocksConfig)
    → HasNoBar (some c)
    → HasNoBar (some d)
    → parts_key c ≡ parts_key d
    → IsSameProxy c d
unfolding parts_key
parts-IsSame c d h k e =
    let one = cut-eq c.proxy_type d.proxy_type _ _ h.0 k.0 e in
    let two = cut-eq c.addr d.addr _ _ h.1.0 k.1.0 one.1 in
    let three = cut-eq c.username d.username _ _ h.1.1 k.1.1 two.1 in
    (one.0, (two.0, (three.0, three.1)))

-- Where no bar stands in the way, a key tells its proxy but for the time limit.
pub proxy_key-Agrees :
    (a b : Option SocksConfig) → HasNoBar a → HasNoBar b → proxy_key a ≡ proxy_key b → Agrees a b
unfolding proxy_key is_direct parts_key
proxy_key-Agrees none none h k e = inl (refl, refl)
proxy_key-Agrees none (some d) h k e = elim (Bool-cases (is_direct (some d))) [
  | inl f ↦ inl (refl, f)
  | inr f ↦ absurd (direct_alone _ _ (rw f at e))
]
proxy_key-Agrees (some c) none h k e = elim (Bool-cases (is_direct (some c))) [
  | inl f ↦ inl (f, refl)
  | inr f ↦ absurd (direct_alone _ _ (sym (rw f at e)))
]
proxy_key-Agrees (some c) (some d) h k e = elim (Bool-cases (is_direct (some c))) [
  | inl f ↦ elim (Bool-cases (is_direct (some d))) [
    | inl g ↦ inl (f, g)
    | inr g ↦ absurd (direct_alone _ _ (rw (f, g) at e))
  ]
  | inr f ↦ elim (Bool-cases (is_direct (some d))) [
    | inl g ↦ absurd (direct_alone _ _ (sym (rw (f, g) at e)))
    | inr g ↦ inr (c, d, (refl, (refl, parts-IsSame c d h k (rw (f, g) at e))))
  ]
]

module _ (reach : Bytes → Option Conn) (parse_ip : Bytes → Option Ip) (base64 : Bytes → Bytes)
    (deadline_set early : Bool) where
  any_limit :
      (l m : ℤ) (addr : Bytes)
      → on_connection (λ _. reach) parse_ip base64 deadline_set early l addr (λ c. (c, ok tt))
        ≡ on_connection (λ _. reach) parse_ip base64 deadline_set early m addr (λ c. (c, ok tt))
  unfolding on_connection
  any_limit l m addr = refl

  proxy-direct :
      (a : Option SocksConfig) (addr : Bytes)
      → is_direct a ≡ true
      → dial_proxy (λ _. reach) parse_ip base64 deadline_set early a addr
        ≡ on_connection
            (λ _. reach)
            parse_ip
            base64
            deadline_set
            early
            (dial_limit a)
            addr
            (λ c. (c, ok tt))
  unfolding dial_proxy on_connection
  proxy-direct none addr h = refl
  proxy-direct (some c) addr h = rw h

  -- The time limit of a proxy changes nothing but how long connecting and the handshake may take.
  proxy-timeout :
      (c : SocksConfig) (t : ℤ) (addr : Bytes)
      → dial_proxy
          (λ _. reach)
          parse_ip
          base64
          deadline_set
          early
          (some (record c { timeout = t }))
          addr
        ≡ dial_proxy (λ _. reach) parse_ip base64 deadline_set early (some c) addr
  unfolding dial_proxy is_direct dial_by_type on_connection
  proxy-timeout c t addr = refl

  same-eq : (c d : SocksConfig) → IsSameProxy c d → record c { timeout = d.timeout } ≡ d
  same-eq c d h = ground arith

  proxy-Agrees :
      (a b : Option SocksConfig) (addr : Bytes)
      → Agrees a b
      → dial_proxy (λ _. reach) parse_ip base64 deadline_set early a addr
        ≡ dial_proxy (λ _. reach) parse_ip base64 deadline_set early b addr
  proxy-Agrees a b addr (inl (p, q)) =
      proxy-direct a addr p
      ∙ any_limit (dial_limit a) (dial_limit b) addr
      ∙ sym (proxy-direct b addr q)
  proxy-Agrees a b addr (inr (c, d, (p, (q, h)))) =
      cc (proxy-timeout c d.timeout addr, same-eq c d h)

  -- Such proxies dial alike within any one time limit.
  pub dial_context-Agrees :
      (a b : Option SocksConfig) (network addr : Bytes)
      → Agrees a b
      → dial_context (λ _. reach) parse_ip base64 deadline_set early a network addr
        ≡ dial_context (λ _. reach) parse_ip base64 deadline_set early b network addr
  unfolding dial_context
  dial_context-Agrees a b network addr h = rw (proxy-Agrees a b addr h)

-- The time limit of a dial is that of the proxy alone.
pub dial_context-limit :
    (reach : ℤ → Bytes → Option Conn) (parse_ip : Bytes → Option Ip) (base64 : Bytes → Bytes)
    (deadline_set early : Bool) (a : Option SocksConfig) (network addr : Bytes)
    → dial_context reach parse_ip base64 deadline_set early a network addr
      ≡ dial_context (λ _. reach (dial_limit a)) parse_ip base64 deadline_set early a network addr
unfolding dial_context dial_proxy dial_by_type on_connection
dial_context-limit reach parse_ip base64 deadline_set early none network addr = refl
dial_context-limit reach parse_ip base64 deadline_set early (some c) network addr = refl
