-- ===== src/Pool/Answer.antt =====
-- The pool that `Next` of internal/proxy/upstream.go leaves, together with its pick.
use revproxy.Prelude.{
  ℕ, ◌+◌, ◌^◌, ◌≤◌, ◌<◌, ◌≡◌, inl, inr, refl, sym, false, List, [], ◌∷◌, arith, Bytes,
}
use revproxy.Backend.{Backend}
use revproxy.Pool.{
  Pool, Pick, nobody, picked, panics, has_key, next, select_from, select, candidates, at, at_int,
}
use revproxy.Pool.Choice.{Among, All, IsEligible, IsEntitled}
use revproxy.Pool.Next.{IsRight, next-IsRight}

select_from-rr :
    (clock : ℕ) (ip : Bytes) (p : Pool) (cands : List Backend)
    → (select_from clock ip p cands).0.rr ≤ p.rr + 1
unfolding select_from select
select_from-rr clock ip p [] = omega arith
select_from-rr clock ip p (b ∷ bs) = ground arith

select_from-nobody :
    (clock : ℕ) (ip : Bytes) (p : Pool) (cands : List Backend)
    → (select_from clock ip p cands).1 ≡ nobody
    → (select_from clock ip p cands).0 ≡ p
unfolding select_from select at at_int
select_from-nobody clock ip p [] e = refl
select_from-nobody clock ip p (b ∷ bs) e = ground arith

Among-fresh :
    (ex : List ℕ) (all : List Backend) (k : ℕ) (bs : List Backend)
    → Among (IsEntitled ex all) k bs
    → has_key k ex ≡ false
Among-fresh ex all k [] h = absurd h
Among-fresh ex all k (b ∷ bs) (inl (e, (h, _))) = rw (sym e) h.1
Among-fresh ex all k (b ∷ bs) (inr h) = Among-fresh ex all k bs h

-- What `next` answers, with the pool it leaves.
abbrev pub IsNext : List ℕ → Pool → Pool × Pick → Type 0
IsNext ex p (q, nobody) = (q ≡ p) × All (λ b. ¬ IsEligible ex b) p.backends
IsNext ex p (q, panics) = ⊥
IsNext ex p (q, picked b) = (q.rr ≤ p.rr + 1) × (has_key b.key ex ≡ false)

pub next-IsNext :
    (clock : ℕ) (ip : Bytes) (ex : List ℕ) (p : Pool)
    → clock < 2 ^ 63
    → p.rr + 1 < 2 ^ 63
    → IsNext ex p (next clock ip ex p)
unfolding next
next-IsNext clock ip ex p c r =
    split (next clock ip ex p) (next-IsRight clock ip ex p c r)
      (select_from-rr clock ip p (candidates ex p.backends))
      (select_from-nobody clock ip p (candidates ex p.backends))
  where
    split :
        (o : Pool × Pick)
        → IsRight ex p.backends o.1
        → o.0.rr ≤ p.rr + 1
        → (o.1 ≡ nobody → o.0 ≡ p)
        → IsNext ex p o
    split (q, nobody) h k f = (f refl, h)
    split (q, panics) h k f = h
    split (q, picked b) h k f = (k, Among-fresh ex p.backends b.key p.backends h)
