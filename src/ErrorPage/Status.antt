-- ===== src/ErrorPage/Status.antt =====
-- The status of the error page, internal/proxy/engine.go.
use revproxy.Prelude.{
  ◌≡◌, refl, ◌⊎◌, inl, inr, true, [], ◌∷◌, ◌++◌, Option, arith, Bytes, codes, has_prefix,
}
use revproxy.Config.{Config, Route}
use revproxy.Backend.{Backend}
use revproxy.Host.{contains}
use revproxy.Transport.{TransportManager, Transport}
use revproxy.Headers.{Outgoing}
use revproxy.ErrorPage.{error_status, error_page, domain_of, visit_error, round_trip_dynamic}

has_prefix-append_left : (p s t : Bytes) → has_prefix p s ≡ true → has_prefix p (s ++ t) ≡ true
unfolding has_prefix
has_prefix-append_left [] s t h = ground arith
has_prefix-append_left (c ∷ p) [] t h = cc
has_prefix-append_left (c ∷ p) (d ∷ s) t h = ground (arith, has_prefix-append_left p s t)

contains_empty : (s : Bytes) → contains [] s ≡ true
unfolding contains has_prefix
contains_empty [] = refl
contains_empty (c ∷ s) = refl

contains-append_left : (p s t : Bytes) → contains p s ≡ true → contains p (s ++ t) ≡ true
unfolding contains
contains-append_left [] s t h = contains_empty (s ++ t)
contains-append_left (b ∷ p) [] t h = cc
contains-append_left (b ∷ p) (c ∷ s) t h =
    ground (arith, has_prefix-append_left (b ∷ p) (c ∷ s) t, contains-append_left (b ∷ p) s t)

contains-append_right : (p s t : Bytes) → contains p t ≡ true → contains p (s ++ t) ≡ true
unfolding contains
contains-append_right p [] t h = h
contains-append_right p (c ∷ s) t h = ground (arith, contains-append_right p s t)

visit_error-contains :
    (p dom name err : Bytes) → contains p dom ≡ true → contains p (visit_error dom name err) ≡ true
unfolding visit_error
visit_error-contains p dom name err h = contains-append_left p _ _ (
    contains-append_left p _ _
      (contains-append_right p (232 ∷ 174 ∷ 191 ∷ 233 ∷ 151 ∷ 174 ∷ 32 ∷ []) dom h))

-- The error that is passed on has what the domain has.
passed_on {ℓ} :
    {A : Type ℓ} (p dom name msg : Bytes) (r : Bytes ⊎ A)
    → contains p dom ≡ true
    → ◌≡◌ {A = Bytes ⊎ A}
        (elim r [ inl err ↦ inl (visit_error dom name err) | inr resp ↦ inr resp ])
        (inl msg)
    → contains p msg ≡ true
passed_on p dom name msg (inl err) h e =
    let same : visit_error dom name err ≡ msg = cc in
    rw (← same) (visit_error-contains p dom name err h)
passed_on p dom name msg (inr resp) h e = absurd cc

-- The bug in the choice of the status: it looks for `timeout` in the whole text of the
-- error, which on a route with the domain in the path begins with the domain. Where that has
-- `timeout` in it, every failure is answered with status 504, whatever has failed.
pub round_trip_dynamic-status {ℓ} :
    {A : Type ℓ} (send : Transport → Outgoing → Bytes ⊎ A) (c : Config) (cfg : Route)
    (m : TransportManager) (out : Outgoing) (b : Option Backend) (msg : Bytes)
    → contains (codes "timeout") (domain_of out) ≡ true
    → (round_trip_dynamic send c cfg m out).1 ≡ inl msg
    → (error_page c cfg true b out msg).status ≡ 504
unfolding round_trip_dynamic error_page error_status
round_trip_dynamic-status send c cfg m out b msg h e =
    let found = passed_on (codes "timeout") (domain_of out) _ msg _ h e in ground (arith, found)
