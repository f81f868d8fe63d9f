-- ===== src/Backend/Fresh.antt =====
-- A node as `newBackend` of internal/proxy/upstream.go makes it.
use revproxy.Prelude.{ℕ, ◌≤◌, ◌≡◌, true, Option, some, arith, pos, pos_part, neg_part, Bytes}
use revproxy.Config.{BackendConfig}
use revproxy.Backend.{Url, SocksConfig, Backend, new_backend}

-- A node that is up and was never used, at its address.
pub record IsNew (key : ℕ) (b : Backend) : Type 0 where
  pub place : b.key ≡ key
  pub up : b.alive ≡ true
  pub idle : b.conns ≡ pos 0
  pub no_fails : b.fails ≡ pos 0
  pub cursor : b.cur_w ≡ pos 0
  pub not_negative : neg_part b.weight ≡ 0
  pub positive : 1 ≤ pos_part b.weight

pub new_backend-IsNew :
    (parse : Bytes → Option Url) (resolve : Bytes → Option SocksConfig × Bytes) (key : ℕ)
    (c : BackendConfig) (b : Backend)
    → new_backend parse resolve key c ≡ some b
    → IsNew key b
unfolding new_backend
new_backend-IsNew parse resolve key c b e = ground arith
