-- ===== src/Transport/Cached.antt =====
-- What the cache of transports promises, `TransportManager` of internal/proxy/upstream.go.
use revproxy.Prelude.{
  ℕ, suc, ◌<◌, ◌≡◌, ◌↔◌, inl, inr, refl, sym, ap, ◌∙◌, Bool, true, List, [], ◌∷◌, Option, none,
  some, arith, Bytes, ℤ, Bool-cases, bytes_eq_iff, bytes_eq_refl, eqb_ℤ_iff,
}
use revproxy.Backend.{SocksConfig}
use revproxy.Socks.{Conn, Ip}
use revproxy.Socks.Dial.{is_direct, dial_limit, dial_context}
use revproxy.Transport.{
  proxy_key, TransportOpts, TransportKey, Transport, TransportManager, new_manager, with_defaults,
  key_of, settings_of, key_eq, find_transport, cached, get,
}
use revproxy.Transport.Keys.{
  HasNoBar, Agrees, proxy_key-Agrees, dial_context-Agrees, dial_context-limit,
}

key_eq_iff : (a b : TransportKey) → key_eq a b ≡ true → a ≡ b
unfolding key_eq
key_eq_iff a b h = ground (arith, bytes_eq_iff a.proxy b.proxy)

key_eq_refl : (a : TransportKey) → key_eq a a ≡ true
unfolding key_eq
key_eq_refl a = ground (
  arith,
  bytes_eq_refl a.proxy,
  (eqb_ℤ_iff a.dial_to a.dial_to).1 refl,
  (eqb_ℤ_iff a.resp_to a.resp_to).1 refl,
  (eqb_ℤ_iff a.keep_alive a.keep_alive).1 refl,
  (eqb_ℤ_iff a.idle_conn a.idle_conn).1 refl,
  (eqb_ℤ_iff a.max_host a.max_host).1 refl,
)

-- A transport that was made for options with that key.
IsMade : TransportKey → Transport → Type 0
IsMade k held =
    (o : TransportOpts) × (HasNoBar o.proxy
      × ((k ≡ key_of o) × ((held.px ≡ o.proxy) × (held.settings ≡ settings_of o))))

-- The entries of a cache, the newest first, at addresses below `n`.
IsCache : ℕ → List (TransportKey × Transport) → Type 0
IsCache n [] = Unit {0}
IsCache n ((k, held) ∷ l) = (held.place < n) × (IsMade k held × IsCache held.place l)

find-IsMade :
    (n : ℕ) (k : TransportKey) (l : List (TransportKey × Transport)) (held : Transport)
    → IsCache n l
    → find_transport k l ≡ some held
    → (held.place < n) × IsMade k held
unfolding find_transport IsCache
find-IsMade n k [] held h e = cc
find-IsMade n k ((j, t) ∷ l) held h e = elim (Bool-cases (key_eq j k)) [
  | inl f ↦
      (let found : some t ≡ some held = rw f at e in
        let same : t ≡ held = cc in rw (sym same, sym (key_eq_iff j k f)) (h.0, h.1.0))
  | inr f ↦
      (let (below, made) = find-IsMade t.place k l held h.1.1 (rw f at e) in
        (omega (arith, below, h.0), made))
]

-- One address, one key.
find-inj :
    (n : ℕ) (k j : TransportKey) (l : List (TransportKey × Transport)) (a b : Transport)
    → IsCache n l
    → find_transport k l ≡ some a
    → find_transport j l ≡ some b
    → a.place ≡ b.place
    → k ≡ j
unfolding find_transport IsCache
find-inj n k j [] a b h e f s = cc
find-inj n k j ((i, t) ∷ l) a b h e f s = elim (Bool-cases (key_eq i k)) [
  | inl x ↦ elim (Bool-cases (key_eq i j)) [
    | inl y ↦ sym (key_eq_iff i k x) ∙ key_eq_iff i j y
    | inr y ↦
        (let found : some t ≡ some a = rw x at e in
          let same : t ≡ a = cc in
          absurd (
            omega (
              arith,
              (find-IsMade t.place j l b h.1.1 (rw y at f)).0,
              ap (λ (u : Transport). u.place) same,
            )))
  ]
  | inr x ↦ elim (Bool-cases (key_eq i j)) [
    | inl y ↦
        (let found : some t ≡ some b = rw y at f in
          let same : t ≡ b = cc in
          absurd (
            omega (
              arith,
              (find-IsMade t.place k l a h.1.1 (rw x at e)).0,
              ap (λ (u : Transport). u.place) same,
            )))
    | inr y ↦ find-inj t.place k j l a b h.1.1 (rw x at e) (rw y at f) s
  ]
]

abbrev IsManager : TransportManager → Type 0
IsManager m = IsCache m.fresh m.cache

-- What one call of `Get` does.
abbrev IsServed : TransportManager → TransportOpts → TransportManager × Transport → Type 0
IsServed m o (m', held) =
    IsManager m'
    × ((held.place < m'.fresh)
        × (IsMade (key_of o) held × (find_transport (key_of o) m'.cache ≡ some held)))

-- The two outcomes of the search.
served : TransportManager → TransportOpts → Option Transport → TransportManager × Transport
served m o (some held) = (m, held)
served m o none =
    let held : Transport = record { place = m.fresh; px = o.proxy; settings = settings_of o } in
    (record { cache = (key_of o, held) ∷ m.cache; fresh = suc m.fresh }, held)

served-IsServed :
    (m : TransportManager) (o : TransportOpts) (found : Option Transport)
    → find_transport (key_of o) m.cache ≡ found
    → HasNoBar o.proxy
    → IsManager m
    → IsServed m o (served m o found)
unfolding served IsCache IsMade find_transport
served-IsServed m o none e bar h = (
  (omega arith, ((o, (bar, (refl, (refl, refl)))), h)),
  (omega arith, ((o, (bar, (refl, (refl, refl)))), rw (key_eq_refl (key_of o)))),
)
served-IsServed m o (some held) e bar h =
    let (below, made) = find-IsMade m.fresh (key_of o) m.cache held h e in (h, (below, (made, e)))

cached-served :
    (m : TransportManager) (o : TransportOpts)
    → cached m o ≡ served m o (find_transport (key_of o) m.cache)
unfolding cached served
cached-served m o = ground arith

cached-IsServed :
    (m : TransportManager) (o : TransportOpts)
    → HasNoBar o.proxy
    → IsManager m
    → IsServed m o (cached m o)
cached-IsServed m o bar h =
    rw (cached-served m o) (served-IsServed m o (find_transport (key_of o) m.cache) refl bar h)

-- The options after the defaults have the same proxy.
get-IsServed :
    (m : TransportManager) (o : TransportOpts)
    → HasNoBar o.proxy
    → IsManager m
    → IsServed m (with_defaults o) (get m o)
unfolding get with_defaults
get-IsServed m o bar h = cached-IsServed m (with_defaults o) bar h

-- The managers that calls of `Get` lead to.
pub gets : TransportManager → List TransportOpts → TransportManager
gets m [] = m
gets m (o ∷ os) = gets (get m o).0 os

abbrev pub HaveNoBar : List TransportOpts → Type 0
HaveNoBar [] = Unit {0}
HaveNoBar (o ∷ os) = HasNoBar o.proxy × HaveNoBar os

gets-IsManager :
    (m : TransportManager) (os : List TransportOpts)
    → HaveNoBar os
    → IsManager m
    → IsManager (gets m os)
unfolding gets
gets-IsManager m [] bars h = h
gets-IsManager m (o ∷ os) bars h =
    gets-IsManager (get m o).0 os bars.1 (get-IsServed m o bars.0 h).0

key-settings : (o p : TransportOpts) → key_of o ≡ key_of p → settings_of o ≡ settings_of p
unfolding key_of settings_of
key-settings o p e = cc

made-Agrees :
    (o : TransportOpts) (held : Transport)
    → HasNoBar o.proxy
    → IsMade (key_of o) held
    → Agrees held.px o.proxy × (held.settings ≡ settings_of o)
unfolding IsMade key_of
made-Agrees o held bar (p, (pbar, (k, (px, st)))) = rw px (
  proxy_key-Agrees p.proxy o.proxy pbar bar (ap (λ (j : TransportKey). j.proxy) (sym k)),
  st ∙ key-settings p o (sym k),
)

-- The next call, where the transport for `o` is `held`.
served-same :
    (m : TransportManager) (o p : TransportOpts) (held : Transport) (found : Option Transport)
    → IsManager m
    → find_transport (key_of o) m.cache ≡ some held
    → held.place < m.fresh
    → find_transport (key_of p) m.cache ≡ found
    → ((served m p found).1.place ≡ held.place) ↔ (key_of p ≡ key_of o)
unfolding served
served-same m o p held none h e below f = (λ s. absurd (omega (arith, below, s)), λ k. absurd cc)
served-same m o p held (some other) h e below f =
    (λ s. find-inj m.fresh (key_of p) (key_of o) m.cache other held h f e s, λ k. cc)

same_transport :
    (m : TransportManager) (o p : TransportOpts)
    → HasNoBar o.proxy
    → IsManager m
    → let (m', held) = get m o in
      ((get m' p).1.place ≡ held.place) ↔ (key_of (with_defaults p) ≡ key_of (with_defaults o))
unfolding get
same_transport m o p bar h =
    let (ready, (below, (_, found))) = get-IsServed m o bar h in
    let next = with_defaults p in
    rw (cached-served (get m o).0 next) (
      served-same (get m o).0 (with_defaults o) next (get m o).1
        (find_transport (key_of next) (get m o).0.cache) ready found below refl)

module _ (reach : ℤ → Bytes → Option Conn) (parse_ip : Bytes → Option Ip) (base64 : Bytes → Bytes)
    (deadline_set early : Bool) where
  -- After any calls of `Get`, and where no type, address or user name of a proxy has a bar in it:
  -- the transport for some options has the settings that a new one for them would have; it dials
  -- as a new one would if the time limit of the proxy with which the transport was made were in
  -- force in place of the one in the options; and the next call, with other options, answers the same
  -- transport exactly if the options have the same key once the defaults are filled in.
  pub get-IsFaithful :
      (os : List TransportOpts) (o p : TransportOpts) (network addr : Bytes)
      → HaveNoBar os
      → HasNoBar o.proxy
      → let (m, held) = get (gets new_manager os) o in
        (held.settings ≡ settings_of (with_defaults o))
        × ((dial_context reach parse_ip base64 deadline_set early held.px network addr
              ≡ dial_context
                  (λ _. reach (dial_limit held.px))
                  parse_ip
                  base64
                  deadline_set
                  early
                  o.proxy
                  network
                  addr)
            × (((get m p).1.place ≡ held.place)
                ↔ (key_of (with_defaults p) ≡ key_of (with_defaults o))))
  unfolding with_defaults IsCache
  get-IsFaithful os o p network addr bars obar =
      let ready = gets-IsManager new_manager os bars tt in
      let (_, (_, (made, _))) = get-IsServed (gets new_manager os) o obar ready in
      let (dials, settings) = made-Agrees (with_defaults o) _ obar made in
      (
        settings,
        (
          dial_context-limit reach parse_ip base64 deadline_set early
                (get (gets new_manager os) o).1.px network addr
              ∙ dial_context-Agrees (reach (dial_limit (get (gets new_manager os) o).1.px)) parse_ip
                  base64 deadline_set early _ _ network addr dials,
          same_transport (gets new_manager os) o p obar ready,
        ),
      )

first_kept :
    (m : TransportManager) (a b : TransportOpts)
    → key_of a ≡ key_of b
    → find_transport (key_of a) m.cache ≡ none
    → ((cached (cached m a).0 b).1 ≡ (cached m a).1) × ((cached m a).1.px ≡ a.proxy)
unfolding served find_transport
first_kept m a b k e =
    rw (cached-served (cached m a).0 b, cached-served m a, e)
      (rw (← k, key_eq_refl (key_of a)) refl, refl)

-- The bug in the cache: its key leaves out the time limit of the proxy. Where a first request
-- makes the transport, a request that differs only in that limit gets the same transport, so that
-- connecting to the proxy still may take as long as the old limit allows.
pub get-stale_limit :
    (m : TransportManager) (o : TransportOpts) (c : SocksConfig) (t : ℤ)
    → find_transport (key_of (with_defaults (record o { proxy = some c }))) m.cache ≡ none
    → let (m', held) = get m (record o { proxy = some c }) in
      let again = (get m' (record o { proxy = some (record c { timeout = t }) })).1 in
      (again ≡ held) × (dial_limit again.px ≡ dial_limit (some c))
unfolding get with_defaults key_of proxy_key is_direct
get-stale_limit m o c t none_yet =
    let old = with_defaults (record o { proxy = some c }) in
    let new = with_defaults (record o { proxy = some (record c { timeout = t }) }) in
    let (kept, px) = first_kept m old new refl none_yet in (kept, cc)
