-- ===== src/Start/Dispatch.antt =====
-- Which requests reach the administration pages, main.go and internal/admin/server.go.
use revproxy.Prelude.{
  ℕ, ◌≡◌, ◌≢◌, ◌⊎◌, inl, inr, refl, ap, subst, ◌∙◌, ◌↔◌, true, [], ◌∷◌, ◌++◌, if◌then◌else◌, ◌==◌,
  arith, Bytes, codes, bytes_eq, bytes_eq_iff, bytes_eq_refl, has_prefix, has_prefix-append,
  is_empty, trim_prefix, trim_prefix-append, trim_left, trim_right, Bool-cases,
}
use mathlib.Core.List.{append_assoc, append-nil}
use revproxy.Config.{Config, Listen}
use revproxy.Config.Normalize.{normalize_listen, trim_slashes}
use revproxy.Admin.Site.{Page, redirect, calls, index_page, page_at, site_prefix, serve_site}
use revproxy.Start.{to_admin, dispatch}

-- A path below another one is the path itself, or goes on with a slash.
abbrev pub IsBelow : Bytes → Bytes → Type 0
IsBelow base p = (p ≡ base) ⊎ ((rest : Bytes) × (p ≡ base ++ b'/' ∷ rest))

prefix-split : (p s : Bytes) → has_prefix p s ≡ true → (rest : Bytes) × (s ≡ p ++ rest)
unfolding has_prefix
prefix-split [] s h = (s, refl)
prefix-split (c ∷ p) [] h = cc
prefix-split (c ∷ p) (d ∷ s) h =
    let both : ((c == d) ≡ true) × (has_prefix p s ≡ true) = ground arith in
    let (rest, e) = prefix-split p s both.1 in let same : c ≡ d = ground arith in (rest, cc)

-- What is shown for the rest of a path.
abbrev pub shown : Bytes → Page
shown rest = if is_empty rest then index_page else page_at (b'/' ∷ rest)

to_admin_of : (c : Config) (p : Bytes) → IsBelow c.listen.admin_path p → dispatch c p ≡ to_admin
unfolding dispatch
to_admin_of c p (inl e) = rw (e, bytes_eq_refl c.listen.admin_path) refl
to_admin_of c p (inr (rest, e)) =
    let below : has_prefix (c.listen.admin_path ++ codes "/") p ≡ true =
      rw (e, ← append_assoc c.listen.admin_path (codes "/") rest)
        (has_prefix-append (c.listen.admin_path ++ codes "/") rest) in
    ground (arith, below)

IsBelow-of : (c : Config) (p : Bytes) → dispatch c p ≡ to_admin → IsBelow c.listen.admin_path p
unfolding dispatch
IsBelow-of c p e = elim (Bool-cases (bytes_eq p c.listen.admin_path)) [
  | inl f ↦ inl ((bytes_eq_iff p c.listen.admin_path).0 f)
  | inr f ↦ elim (Bool-cases (has_prefix (c.listen.admin_path ++ codes "/") p)) [
    | inl g ↦
        (let (rest, h) = prefix-split (c.listen.admin_path ++ codes "/") p g in
          inr (rest, h ∙ append_assoc c.listen.admin_path (codes "/") rest))
    | inr g ↦ absurd (ground arith)
  ]
]

site_prefix_lem : (p : Bytes) → p ≢ [] → trim_right b'/' p ≡ p → site_prefix p ≡ p
unfolding site_prefix
site_prefix_lem [] h e = absurd (h refl)
site_prefix_lem (b ∷ p) h e = e

-- By the path behind the prefix.
served_by :
    (p s path : Bytes)
    → trim_prefix p s ≡ path
    → serve_site p s ≡ (
        if is_empty path
        then redirect (p ++ codes "/")
        else page_at (if bytes_eq path (codes "/") then codes "/index.html" else path))
unfolding serve_site
served_by p s path e = rw e refl

trim_prefix_self : (p : Bytes) → trim_prefix p p ≡ []
trim_prefix_self p =
    subst (λ (s : Bytes). trim_prefix p s ≡ []) (append-nil p) (trim_prefix-append p [])

served_below : (p rest : Bytes) → serve_site p (p ++ b'/' ∷ rest) ≡ shown rest
unfolding page_at bytes_eq has_prefix
served_below p [] = served_by p (p ++ b'/' ∷ []) (b'/' ∷ []) (trim_prefix-append p (b'/' ∷ []))
served_below p (c ∷ rest) =
    served_by p (p ++ b'/' ∷ c ∷ rest) (b'/' ∷ c ∷ rest) (trim_prefix-append p (b'/' ∷ c ∷ rest))

calls_of : (segment : Bytes) → shown (codes "api/" ++ segment) ≡ calls segment
unfolding page_at has_prefix
calls_of segment = ap calls (trim_prefix-append (codes "/api/") segment)

-- For an administration path that is not empty and has no slash at its end: a request goes to the
-- administration server exactly if its path is that path, or goes on behind it with a slash; the
-- path itself is redirected to the one with a slash, behind which the index page stands for
-- nothing and otherwise the rest decides; and what stands behind `/api/` is the call.
pub dispatch-site :
    (c : Config) (p rest segment : Bytes)
    → c.listen.admin_path ≢ []
    → trim_right b'/' c.listen.admin_path ≡ c.listen.admin_path
    → let base = c.listen.admin_path in
      ((dispatch c p ≡ to_admin) ↔ IsBelow base p)
      × ((serve_site (site_prefix base) base ≡ redirect (base ++ codes "/"))
          × ((serve_site (site_prefix base) (base ++ b'/' ∷ rest) ≡ shown rest)
              × (serve_site (site_prefix base) (base ++ (codes "/api/" ++ segment))
                  ≡ calls segment)))
dispatch-site c p rest segment h e =
    let base = c.listen.admin_path in
    rw (site_prefix_lem base h e) (
      (IsBelow-of c p, to_admin_of c p),
      (
        served_by base base [] (trim_prefix_self base),
        (served_below base rest, served_below base (codes "api/" ++ segment) ∙ calls_of segment),
      ),
    )

root_path : (l : Listen) → l.admin_path ≡ codes "/" → (normalize_listen l).admin_path ≡ codes "/"
unfolding normalize_listen trim_slashes trim_left trim_right
root_path l e = rw e refl

above : (b : ℕ) (rest : Bytes) → b ≢ b'/' → ¬ IsBelow (codes "/") (b'/' ∷ b ∷ rest)
above b rest h (inl e) = cc
above b rest h (inr (more, e)) = h cc

-- The bug in an administration path of `/`, which stays as it is in normal form: no path that goes
-- on behind the slash with another byte reaches the administration server, and so no call of its
-- API does.
pub dispatch-root :
    (c : Config) (l : Listen) (b : ℕ) (rest : Bytes)
    → l.admin_path ≡ codes "/"
    → b ≢ b'/'
    → let c' = record c { listen = normalize_listen l } in
      (c'.listen.admin_path ≡ codes "/") × (dispatch c' (b'/' ∷ b ∷ rest) ≢ to_admin)
dispatch-root c l b rest e h =
    let c' = record c { listen = normalize_listen l } in
    let path : c'.listen.admin_path ≡ codes "/" = root_path l e in
    (
      path,
      λ k. above b rest h (
          subst (λ (base : Bytes). IsBelow base (b'/' ∷ b ∷ rest)) path
            (IsBelow-of c' (b'/' ∷ b ∷ rest) k)),
    )
