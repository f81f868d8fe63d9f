-- ===== src/Serve.antt =====
-- One request from its arrival to the access log, `ServeHTTP` of internal/proxy/engine.go. Parameters:
-- the patterns of package `regexp`, the addresses of package `net`, and the reverse proxy
-- of net/http/httputil, whose transport is `Forward`. One reading of the clock stands for those of
-- the request, the rate limiter and the pool.
pub mod Gate
pub mod Account
pub mod Recorder
mod Tests
use revproxy.Prelude.{
  ℕ, ◌-◌, ◌/◌, ◌^◌, ◌≡◌, Bool, true, false, ◌&&◌, not, List, [], ◌∷◌, ◌++◌, Option, none, some,
  if◌then◌else◌, ◌==◌, leb, map, Bytes, codes, bytes_eq, is_empty,
}
use revproxy.Config.{Config, Route}
use revproxy.Backend.{Backend}
use revproxy.Host.{Request, client_ip, basic_auth_ok}
use revproxy.Access.{Net, IpMatcher, match_ip, matcher_empty}
use revproxy.Limiter.{Limiter, allow}
use revproxy.Pool.{Pool, Pick, nobody, picked, panics, next}
use revproxy.Routing.{
  Matcher, match_route, dyn_domain_of, resolve_dyn_proxy, Via, direct, direct_missing, via,
}
use revproxy.Stats.{Collector, AccessLog, begin_request, end_request}

-- The two names of a direct connection, in UTF-8.
abbrev pub direct_name : Bytes
direct_name = 231 ∷ 155 ∷ 180 ∷ 232 ∷ 191 ∷ 158 ∷ []

abbrev missing_name : Bytes
missing_name =
    direct_name
    ++ b'(' ∷ 228 ∷ 187 ∷ 163 ∷ 231 ∷ 144 ∷ 134 ∷ b'I' ∷ b'D' ∷ 228 ∷ 184 ∷ 141 ∷ 229 ∷ 173 ∷ 152
      ∷ 229 ∷ 156 ∷ 168 ∷ b')' ∷ []

unfoldable pub via_name : Via → Bytes
via_name direct = direct_name
via_name direct_missing = missing_name
via_name (via _ name) = name

-- The text of `errMsg` where nobody is left to send to, in UTF-8.
abbrev all_down : Bytes
all_down =
    230 ∷ 137 ∷ 128 ∷ 230 ∷ 156 ∷ 137 ∷ 228 ∷ 184 ∷ 138 ∷ 230 ∷ 184 ∷ 184 ∷ 232 ∷ 138 ∷ 130 ∷ 231
    ∷ 130 ∷ 185 ∷ 228 ∷ 184 ∷ 141 ∷ 229 ∷ 143 ∷ 175 ∷ 231 ∷ 148 ∷ 168 ∷ []

-- The call of End, if there is an answer and access logging is on.
pub account : Config → Collector → Option AccessLog → Collector
account cfg c none = c
account cfg c (some l) = if cfg.log.access then end_request c l else c

module _ (n : Net) where
  pub record Handler : Type 0 where
    pub matcher : Matcher
    pub dyn_domain : Bool
    pub allow_ips : IpMatcher n
    pub deny_ips : IpMatcher n
    pub limiter : Option Limiter
    pub pool : Pool

  -- What is done with a request that has found its route.
  pub data Verdict : Type 0 where
    forbidden limited no_upstream crashed : Verdict
    unauthorized : Bytes → Verdict
    forwarded : Backend → Verdict

  pub limiter_allows : Option Limiter → Bytes → ℕ → Option Limiter × Bool
  limiter_allows none ip now = (none, true)
  limiter_allows (some l) ip now = let (l, fine) = allow l ip now in (some l, fine)

  pub ip_barred : Handler → Bytes → Bool
  ip_barred h ip =
      if match_ip n h.deny_ips ip
      then true
      else not (matcher_empty n h.allow_ips) && not (match_ip n h.allow_ips ip)

  pub auth_missing : Handler → Request → Bool
  auth_missing h r =
      let auth = h.matcher.cfg.access.basic_auth in
      auth.enabled && not (basic_auth_ok r auth.username auth.password)

  pub realm_of : Handler → Bytes
  realm_of h =
      let realm = h.matcher.cfg.access.basic_auth.realm in
      if is_empty realm then codes "Restricted" else realm

  -- The choice of a node, once the request is let in.
  pub choose : Handler → Bytes → ℕ → Handler × Verdict
  choose h ip clock =
      let (p, pick) = next clock ip [] h.pool in
      elim pick [
        | nobody ↦ (record h { pool = p }, no_upstream)
        | picked b ↦ (record h { pool = p }, forwarded b)
        | panics ↦ (record h { pool = p }, crashed)
      ]

  -- Access control.
  pub gate : Handler → Request → Bytes → ℕ → Handler × Verdict
  unfolding ip_barred auth_missing limiter_allows realm_of choose
  gate h r ip clock =
      if ip_barred h ip
      then (h, forbidden)
      else if auth_missing h r
      then (h, unauthorized (realm_of h))
      else (let (l, fine) = limiter_allows h.limiter ip clock in
          if fine
          then choose (record h { limiter = l }) ip clock
          else (record h { limiter = l }, limited))

  -- What the access log tells of the answer.
  pub record Answer : Type 0 where
    pub status : ℕ
    pub written : ℕ
    pub err_msg : Bytes
    pub up : Bytes
    pub via_text : Bytes

  pub record Engine : Type 0 where
    pub cfg : Config
    pub handlers : List Handler
    pub collector : Collector

  -- `up` and `via` where the domain in the path is known.
  pub target_text : Config → Handler → Bytes → Bytes × Bytes
  unfolding via_name
  target_text cfg h dom =
      if h.dyn_domain
      then (
        (if bytes_eq h.matcher.cfg.scheme (codes "https") then codes "https" else codes "http")
            ++ codes "://"
            ++ dom,
        via_name (resolve_dyn_proxy cfg h.matcher.cfg dom),
      )
      else ([], [])

  pub node_text : Handler → Backend → Bytes × Bytes → Bytes × Bytes
  node_text h b texts = if h.dyn_domain then texts else (b.raw, b.proxy_name)

  abbrev refused : ℕ → Bytes → Bytes × Bytes → Answer
  refused status err (up, through) = record {
    status = status;
    written = 0;
    err_msg = err;
    up = up;
    via_text = through;
  }

  module _ (status_text : ℕ → Bytes)
      (reverse_proxy : Handler → Backend → Request → Handler × (ℕ × ℕ)) where
    -- The status that was recorded, 0 for none, and the bytes.
    pub proxied : ℕ × ℕ → Bytes × Bytes → Answer
    proxied (code, bytes) (up, through) =
        let status = if code == 0 then 200 else code in
        record {
          status = status;
          written = bytes;
          err_msg = if leb 500 status then status_text status else [];
          up = up;
          via_text = through;
        }

    -- The answer to a verdict; a panic has none.
    pub answer : Handler → Request → Bytes × Bytes → Verdict → Handler × Option Answer
    unfolding proxied node_text
    answer h r texts forbidden = (h, some (refused 403 [] texts))
    answer h r texts (unauthorized _) = (h, some (refused 401 [] texts))
    answer h r texts limited = (h, some (refused 429 [] texts))
    answer h r texts no_upstream = (h, some (refused 502 all_down texts))
    answer h r texts crashed = (h, none)
    answer h r texts (forwarded b) =
        let (g, result) = reverse_proxy h b r in (g, some (proxied result (node_text h b texts)))

    -- A handler that has matched; `none` is the early return of status 400, or a panic.
    pub handle : Config → Handler → Request → Bytes → ℕ → Handler × Option Answer
    unfolding target_text gate answer
    handle cfg h r ip clock =
        let dom = dyn_domain_of h.matcher.cfg.path r.path in
        if h.dyn_domain && is_empty dom
        then (h, none)
        else (let (g, verdict) = gate h r ip clock in answer g r (target_text cfg h dom) verdict)

    pub handler_at : ℕ → List Handler → Option Handler
    handler_at k [] = none
    handler_at k (h ∷ hs) = if h.matcher.key == k then some h else handler_at k hs

    pub set_handler : Handler → List Handler → List Handler
    set_handler g [] = []
    set_handler g (h ∷ hs) = (if h.matcher.key == g.matcher.key then g else h) ∷ set_handler g hs

    -- The entry of the access log; `uri` is RequestURI and `taken` the duration in milliseconds.
    pub entry : Request → Bytes → Bytes → ℕ → ℕ → Bytes → Bytes → Answer → AccessLog
    entry r uri ip start taken id name a = record {
      time = start;
      route_id = id;
      route = name;
      method = r.method;
      host = r.host;
      path = uri;
      status = a.status;
      duration = taken;
      bytes_out = a.written;
      client_ip = ip;
      upstream = a.up;
      via_proxy = a.via_text;
      error = a.err_msg;
      retry = 0;
    }

    pub find_route : (Bytes → Bytes → Bool) → Request → List Handler → Option Handler
    unfolding handler_at
    find_route regex_match r hs = elim (match_route regex_match r (map (λ h. h.matcher) hs)) [
      | none ↦ none
      | some m ↦ handler_at m.key hs
    ]

    pub serve : (Bytes → Bytes → Bool) → Engine → Request → Bytes → ℕ → ℕ → Engine × Option Answer
    unfolding handle set_handler entry account find_route
    serve regex_match e r uri start taken =
        let c = begin_request e.collector (start / 10 ^ 9) in
        let ip = client_ip r e.cfg.global.trust_proxy in
        elim (find_route regex_match r e.handlers) [
          | none ↦
              (let a = refused 404 [] ([], []) in
                (
                  record e {
                    collector =
                        account e.cfg c
                          (some (entry r uri ip start taken (codes "_nomatch") (codes "-") a));
                  },
                  some a,
                ))
          | some h ↦
              (let (g, a) = handle e.cfg h r ip start in
                (
                  record e {
                    handlers = set_handler g e.handlers;
                    collector = account e.cfg c (elim a [
                      | none ↦ none
                      | some a ↦
                          some (entry r uri ip start taken h.matcher.cfg.id h.matcher.cfg.name a)
                    ]);
                  },
                  a,
                ))
        ]
