-- ===== src/ErrorPage.antt =====
-- The answer where the upstream cannot be reached, internal/proxy/engine.go: `errorPage`, `truncate`
-- and `roundTripDynamic`, whose errors it is given. The network is a parameter: `send` answers a
-- request over a transport with an error text or a response. Of the JSON body the texts are modelled
-- that its verbs `%q` print, and not the time.
pub mod Header
pub mod Status
mod Tests
use revproxy.Prelude.{
  ℕ, zero, suc, ◌-◌, ◌⊎◌, inl, inr, Bool, true, false, ◌&&◌, ◌||◌, List, [], ◌∷◌, ◌++◌, Option,
  none, some, if◌then◌else◌, ◌==◌, leb, ltb, take, Bytes, codes, is_empty,
}
use revproxy.Config.{Config, Route}
use revproxy.Backend.{SocksConfig, Backend}
use revproxy.Host.{contains}
use revproxy.Routing.{resolve_dyn_proxy}
use revproxy.Serve.{direct_name, via_name}
use revproxy.Reload.{via_pair}
use revproxy.Transport.{TransportManager, Transport, get, route_opts}
use revproxy.Headers.{Outgoing}

abbrev is_between : ℕ → ℕ → ℕ → Bool
is_between lo hi c = leb lo c && leb c hi

-- How many bytes of UTF-8 follow the first byte `c` of a text that goes on with `s`, `none` where
-- the byte begins no valid rune. The second byte decides about overlong forms, surrogates
-- and values that are too large.
is_second : ℕ → ℕ → Bool
is_second c d =
    if c == 224
    then is_between 160 191 d
    else if c == 237
    then is_between 128 159 d
    else if c == 240
    then is_between 144 191 d
    else if c == 244
    then is_between 128 143 d
    else is_between 128 191 d

-- The number of bytes behind the first one, by that byte; 0 for ASCII and for a byte that is none.
tail_size : ℕ → ℕ
tail_size c =
    if is_between 194 223 c
    then 1
    else if is_between 224 239 c
    then 2
    else if is_between 240 244 c
    then 3
    else 0

-- Whether that many bytes of the form 10xxxxxx come first.
continues : ℕ → Bytes → Bool
continues zero s = true
continues (suc n) [] = false
continues (suc n) (c ∷ s) = is_between 128 191 c && continues n s

-- Whether the bytes behind the first one are right.
starts_rune : ℕ → Bytes → Bool
unfolding is_second continues tail_size
starts_rune c [] = ltb c 128
starts_rune c (d ∷ s) =
    if ltb c 128
    then true
    else ltb 0 (tail_size c) && (is_second c d && continues (tail_size c) (d ∷ s))

-- strings.Map as `truncate` uses it, with the number of bytes of a rune that are still to be copied:
-- the two line breaks become blanks, and a byte that is not UTF-8 becomes U+FFFD.
one_line : ℕ → Bytes → Bytes
unfolding starts_rune tail_size
one_line n [] = []
one_line (suc n) (c ∷ s) = c ∷ one_line n s
one_line zero (c ∷ s) =
    let valid = starts_rune c s in
    let rest = one_line (if valid then tail_size c else 0) s in
    if c == 10 || c == 13 then 32 ∷ rest else if valid then c ∷ rest else 239 ∷ 191 ∷ 189 ∷ rest

unfoldable pub truncate : Bytes → ℕ → Bytes
unfolding one_line
truncate s n = take n (one_line 0 s)

-- The status by the text of the error.
unfoldable pub error_status : Bytes → ℕ
error_status msg =
    if contains (codes "context deadline exceeded") msg || contains (codes "timeout") msg
    then 504
    else 502

pub record ErrorReply : Type 0 where
  pub status : ℕ
  pub error_header : Bytes
  pub route : Bytes
  pub upstream : Bytes
  pub via_proxy : Bytes
  pub message : Bytes

-- The domain of a request whose URL was made from its path.
unfoldable pub domain_of : Outgoing → Bytes
domain_of out = if is_empty out.url.host then out.host else out.url.host

-- What the page calls the upstream and the proxy.
unfoldable pub error_target : Config → Route → Bool → Option Backend → Outgoing → Bytes × Bytes
unfolding domain_of
error_target c cfg true b out =
    let name = via_name (resolve_dyn_proxy c cfg (domain_of out)) in
    (domain_of out, if is_empty name then direct_name else name)
error_target c cfg false none out = ([], [])
error_target c cfg false (some b) out = (b.raw, b.proxy_name)

-- errorPage
unfoldable pub error_page : Config → Route → Bool → Option Backend → Outgoing → Bytes → ErrorReply
unfolding error_target error_status truncate
error_page c cfg dyn_domain b out msg =
    let (up, through) = error_target c cfg dyn_domain b out in
    record {
      status = error_status msg;
      error_header = truncate msg 200;
      route = cfg.name;
      upstream = up;
      via_proxy = through;
      message = msg;
    }

-- The error of roundTripDynamic, in UTF-8.
unfoldable pub visit_error : Bytes → Bytes → Bytes → Bytes
visit_error dom name err =
    (232 ∷ 174 ∷ 191 ∷ 233 ∷ 151 ∷ 174 ∷ 32 ∷ dom)
    ++ (32 ∷ 229 ∷ 164 ∷ 177 ∷ 232 ∷ 180 ∷ 165 ∷ 239 ∷ 188 ∷ 136 ∷ 231 ∷ 187 ∷ 143 ∷ 231 ∷ 148 ∷ 177
        ∷ 32 ∷ name)
    ++ (239 ∷ 188 ∷ 137 ∷ 58 ∷ 32 ∷ err)

-- roundTripDynamic
unfoldable pub round_trip_dynamic {ℓ} :
    {A : Type ℓ}
    → (Transport → Outgoing → Bytes ⊎ A)
    → Config
    → Route
    → TransportManager
    → Outgoing
    → TransportManager × (Bytes ⊎ A)
unfolding visit_error domain_of
round_trip_dynamic send c cfg m out =
    let (px, name) = via_pair (resolve_dyn_proxy c cfg (domain_of out)) in
    let (m', transport) = get m (route_opts c cfg px) in
    (
      m',
      elim (send transport out) [
        | inl err ↦ inl (visit_error (domain_of out) name err)
        | inr resp ↦ inr resp
      ],
    )
