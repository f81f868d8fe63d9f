-- ===== src/Pool/Next.antt =====
-- What `Next` of internal/proxy/upstream.go promises.
use revproxy.Prelude.{ℕ, ◌+◌, ◌^◌, ◌<◌, ◌≡◌, refl, true, false, List, [], ◌∷◌, arith, Bytes}
use revproxy.Backend.{Backend}
use revproxy.Pool.{
  Pool, Pick, nobody, picked, panics, is_candidate, collect, or_backups, candidates, select,
  select_from, next,
}
use revproxy.Pool.Choice.{
  Among, All, IsEligible, IsEntitled, candidates-Among, collect-nil, All-weaken,
}
use revproxy.Pool.Choice.Picks.{IsFrom, select-IsFrom}

-- Nobody is picked and nobody is eligible, or the node that is picked is entitled to it.
abbrev pub IsRight : List ℕ → List Backend → Pick → Type 0
IsRight exclude bs nobody = All (λ b. ¬ IsEligible exclude b) bs
IsRight exclude bs (picked b) = Among (IsEntitled exclude bs) b.key bs
IsRight exclude bs panics = ⊥

no_candidate :
    (exclude : List ℕ) (b : Backend) → is_candidate true exclude b ≡ false → ¬ IsEligible exclude b
unfolding is_candidate
no_candidate exclude b e h = ground arith

nobody_left :
    (exclude : List ℕ) (bs : List Backend)
    → candidates exclude bs ≡ []
    → All (λ b. ¬ IsEligible exclude b) bs
unfolding candidates
nobody_left exclude bs e =
    All-weaken (λ b. is_candidate true exclude b ≡ false) (λ b. ¬ IsEligible exclude b) bs
      (no_candidate exclude) (collect-nil true exclude bs (second (collect false exclude bs) e))
  where
    second :
        (first : List Backend)
        → or_backups first (collect true exclude bs) ≡ []
        → collect true exclude bs ≡ []
    second [] e = e
    second (b ∷ first) e = cc

IsRight-of_IsFrom :
    (exclude : List ℕ) (bs : List Backend) (p : Pick)
    → IsFrom (candidates exclude bs) p
    → IsRight exclude bs p
IsRight-of_IsFrom exclude bs nobody h = absurd h
IsRight-of_IsFrom exclude bs panics h = absurd h
IsRight-of_IsFrom exclude bs (picked b) h = candidates-Among exclude b.key bs h

-- For a clock and a counter below 2 ^ 63, `Next` never runs out of range under any strategy. It
-- picks nobody only if no node is both alive and not excluded; otherwise it picks such a node, and
-- a backup only where no primary node is alive and not excluded.
pub next-IsRight :
    (clock : ℕ) (client_ip : Bytes) (exclude : List ℕ) (p : Pool)
    → clock < 2 ^ 63
    → p.rr + 1 < 2 ^ 63
    → IsRight exclude p.backends (next clock client_ip exclude p).1
unfolding next
next-IsRight clock client_ip exclude p c r = split (candidates exclude p.backends) refl
  where
    split :
        (cands : List Backend)
        → candidates exclude p.backends ≡ cands
        → IsRight exclude p.backends (select_from clock client_ip p cands).1
    split [] e = nobody_left exclude p.backends e
    split (b ∷ bs) e =
        IsRight-of_IsFrom exclude p.backends (select clock client_ip p b bs).1
          (rw e (select-IsFrom clock client_ip p b bs c r))
