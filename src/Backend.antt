-- ===== src/Backend.antt =====
-- The upstream node of internal/proxy/upstream.go: its construction and its health marks.
-- `key` is the address of the node; `alive` is the flag that the source keeps as 0 or 1.
pub mod Marks
pub mod Fresh
use revproxy.Prelude.{
  ℕ, ◌≡◌, Bool, true, false, ◌&&◌, ◌||◌, not, List, [], ◌∷◌, Option, none, some, ltb, if◌then◌else◌,
  length, take, ℤ, pos, ltb_ℤ, default_to, add64, Bytes, codes, bytes_eq, is_empty,
}
use revproxy.Config.{BackendConfig}

pub record Url : Type 0 where
  pub scheme : Bytes
  pub host : Bytes
  pub path : Bytes

-- A proxy to dial through, internal/socks/socks5.go.
pub record SocksConfig : Type 0 where
  pub proxy_type : Bytes
  pub addr : Bytes
  pub username : Bytes
  pub password : Bytes
  pub timeout : ℤ

pub record Backend : Type 0 where
  pub key : ℕ
  pub raw : Bytes
  pub url : Url
  pub weight : ℤ
  pub proxy : Option SocksConfig
  pub proxy_name : Bytes
  pub backup : Bool
  pub alive : Bool
  pub fails : ℤ
  pub ok_streak : ℤ
  pub conns : ℤ
  pub cur_w : ℤ
  pub last_err : Bytes
  pub last_err_t : Option ℕ

-- What `url.Parse` answers, `none` for an error; the node is placed at address `key`.
unfoldable pub new_backend :
    (Bytes → Option Url) → (Bytes → Option SocksConfig × Bytes) → ℕ → BackendConfig → Option Backend
new_backend parse_url resolve key b = elim (parse_url b.url) [
  | none ↦ none
  | some u ↦
      if is_empty u.host
        || (not (bytes_eq u.scheme (codes "http"))
            && (not (bytes_eq u.scheme (codes "https"))
                && not (bytes_eq u.scheme (codes "internal"))))
      then none
      else some (record {
        key = key;
        raw = b.url;
        url = u;
        weight = default_to 1 b.weight;
        proxy = (resolve b.proxy_id).0;
        proxy_name = (resolve b.proxy_id).1;
        backup = b.backup;
        alive = true;
        fails = pos 0;
        ok_streak = pos 0;
        conns = pos 0;
        cur_w = pos 0;
        last_err = [];
        last_err_t = none;
      })
]

-- max(1, n)
abbrev pub at_least_one : ℤ → ℤ
at_least_one n = if ltb_ℤ n (pos 1) then pos 1 else n

unfoldable pub mark_fail : Option Bytes → ℤ → ℕ → Backend → Backend
mark_fail err threshold now b =
    let fails = add64 b.fails (pos 1) in
    record b {
      fails = fails;
      ok_streak = pos 0;
      last_err = elim err [
        | none ↦ b.last_err
        | some msg ↦ if ltb 200 (length msg) then take 200 msg else msg
      ];
      last_err_t = some now;
      alive = if ltb_ℤ fails (at_least_one threshold) then b.alive else false;
    }

unfoldable pub mark_ok : ℤ → Backend → Backend
mark_ok passes b =
    let streak = add64 b.ok_streak (pos 1) in
    if ltb_ℤ streak (at_least_one passes)
    then record b { ok_streak = streak }
    else record b { ok_streak = streak; fails = pos 0; last_err = []; alive = true }

unfoldable pub mark_success : Backend → Backend
mark_success b = record b { fails = pos 0; last_err = []; alive = true }
