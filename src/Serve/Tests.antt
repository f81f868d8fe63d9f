-- ===== src/Serve/Tests.antt =====
-- Examples for a whole request.
use revproxy.Prelude.{
  ℕ, ◌≡◌, refl, false, List, [], ◌∷◌, none, some, pos, Bytes, codes, arith, bytes_eq,
}
use revproxy.Samples.{a_config, a_request, a_matcher, a_pool, node}
use revproxy.Backend.{Backend}
use revproxy.Host.{Request}
use revproxy.Access.{Net, match_ip, matcher_empty, IpMatcher}
use revproxy.Pool.{
  next, candidates, collect, is_candidate, has_key, or_backups, select_from, select, at, at_int,
}
use revproxy.Stats.{new}
use revproxy.Serve.{Handler, gate, Engine, proxied}
use revproxy.Serve.Recorder.{WriterCall, header, body, recorded, new_recorder, proxied-first}
use revproxy.Serve.Gate.{IsAdmitted, gate-IsAdmitted}

abbrev texts : Net
texts = record {
  Ip = Bytes;
  Block = Bytes;
  parse_ip = λ s. some s;
  show_ip = λ s. s;
  parse_cidr = λ s. none;
  in_block = λ b ip. false;
}

abbrev nobody_listed : IpMatcher texts
nobody_listed = record { nets = []; singles = [] }

abbrev handler : Handler texts
handler = record {
  matcher = a_matcher 1 (codes "/api");
  dyn_domain = false;
  allow_ips = nobody_listed;
  deny_ips = nobody_listed;
  limiter = none;
  pool = a_pool;
}

abbrev engine : Engine texts
engine = record { cfg = a_config; handlers = handler ∷ []; collector = new (pos 10) [] 3 }

abbrev fine_proxy : Handler texts → Backend → Request → Handler texts × (ℕ × ℕ)
fine_proxy h b r = (h, (200, 12))

abbrev no_text : ℕ → Bytes
no_text status = []

gate-IsAdmitted_example : IsAdmitted texts handler a_request (codes "10.0.0.1") 5 (node 2 1)
unfolding gate match_ip next candidates collect is_candidate has_key or_backups select_from select
    at at_int bytes_eq matcher_empty
gate-IsAdmitted_example =
    gate-IsAdmitted texts handler a_request (codes "10.0.0.1") 5 (node 2 1) (omega arith)
      (omega arith) refl

-- An early hint before the answer.
abbrev hinted : List WriterCall
hinted = header 103 ∷ header 200 ∷ body 5 ∷ []

proxied-first_example :
    let r = recorded hinted new_recorder in
    let a = proxied texts (λ s. []) (λ h b r. (h, (200, 0))) (r.status, r.written) ([], []) in
    (a.status ≡ 103) × (a.written ≡ 5)
proxied-first_example =
    proxied-first texts (λ s. []) (λ h b r. (h, (200, 0))) hinted ([], []) (omega arith)
