-- ===== src/Health.antt =====
-- The health checker of internal/proxy/upstream.go, `HealthChecker.check`. The network is a parameter:
-- `wire i url` is what comes back in round `i`, an error text or a status, and `valid` tells whether
-- `http.NewRequest` takes the URL.
pub mod Rounds
pub mod Workers
pub mod Current
pub mod Overlap
pub mod Ends
mod Tests
use revproxy.Prelude.{
  ℕ, zero, suc, ◌⊎◌, inl, inr, Bool, true, false, ◌||◌, not, List, [], ◌∷◌, ◌++◌, map, Option, none,
  some, if◌then◌else◌, ℤ, pos, eqb_ℤ, ltb_ℤ, Bytes, codes, bytes_eq, is_empty, trim_left,
  trim_right, show_ℤ,
}
use revproxy.Config.{HealthCheck}
use revproxy.Backend.{Url, Backend, mark_fail, mark_ok, mark_success}
use revproxy.Pool.{Pool}

-- The path that is asked for: that of the node and that of the check with one slash between.
pub check_path : Bytes → Bytes → Bytes
check_path base path =
    if is_empty path then codes "/" else trim_right b'/' base ++ b'/' ∷ trim_left b'/' path

pub check_url : HealthCheck → Backend → Url
unfolding check_path
check_url cfg b = record b.url { path = check_path b.url.path cfg.path }

pub one_of : ℤ → List ℤ → Bool
one_of status [] = false
one_of status (c ∷ cs) = eqb_ℤ c status || one_of status cs

-- With no codes given every status below 400 is good.
unfoldable pub good_status : List ℤ → ℤ → Bool
unfolding one_of
good_status [] status = ltb_ℤ status (pos 400)
good_status (c ∷ cs) status = one_of status (c ∷ cs)

-- The error for a bad status, in UTF-8.
pub status_text : ℤ → Bytes
status_text status =
    229
    ∷ 129
    ∷ 165
    ∷ 229
    ∷ 186
    ∷ 183
    ∷ 230
    ∷ 163
    ∷ 128
    ∷ 230
    ∷ 159
    ∷ 165
    ∷ 232
    ∷ 191
    ∷ 148
    ∷ 229
    ∷ 155
    ∷ 158
    ∷ 231
    ∷ 138
    ∷ 182
    ∷ 230
    ∷ 128
    ∷ 129
    ∷ 231
    ∷ 160
    ∷ 129
    ∷ 32
    ∷ show_ℤ status

module _ (valid : Url → Bool) (wire : ℕ → Url → Bytes ⊎ ℤ) (now : ℕ → ℕ) (cfg : HealthCheck) where
  pub mark_answer : ℕ → Bytes ⊎ ℤ → Backend → Backend
  unfolding good_status status_text
  mark_answer i (inl err) b = mark_fail (some err) cfg.fails (now i) b
  mark_answer i (inr status) b =
      if good_status cfg.codes status
      then mark_ok cfg.passes b
      else mark_fail (some (status_text status)) cfg.fails (now i) b

  -- One node; the built-in test upstream is always well.
  pub check_node : ℕ → Backend → Backend
  unfolding check_url mark_answer
  check_node i b =
      if bytes_eq b.url.scheme (codes "internal")
      then mark_success b
      else if not (valid (check_url cfg b))
      then b
      else mark_answer i (wire i (check_url cfg b)) b

  pub check : ℕ → Pool → Pool
  unfolding check_node
  check i p = record p { backends = map (check_node i) p.backends }

  -- The first rounds of the ticker.
  pub checks : ℕ → Pool → Pool
  unfolding check
  checks zero p = p
  checks (suc n) p = check n (checks n p)
