-- ===== src/Auth/Session.antt =====
-- Which tokens `Verify` of internal/admin/auth.go accepts.
use revproxy.Prelude.{
  ℕ, ◌*◌, ◌^◌, ◌<◌, ◌≤◌, ◌≡◌, ◌↔◌, refl, sym, ◌∙◌, inl, inr, arith, true, false, [], ◌∷◌, ◌++◌,
  none, some, if◌then◌else◌, ◌==◌, subst, ℤ, pos, negsuc, pos_part, neg_part, ◌≤ℤ◌, ◌+ℤ◌, ltb_ℤ,
  default_to, ◌*ℤ◌, wrap64-IsInt64, IsInt64, Bytes, bytes_eq_iff, is_empty, has_byte, show_ℤ,
  parse_int, parse_int-show_ℤ, has_byte-show_ℤ, Bool-cases, Option-cases,
}
use mathlib.Core.List.{head-eq_of_cons-eq, tail-eq_of_cons-eq}
use revproxy.Config.{Admin}
use revproxy.Config.Password.{Crypto, split_once, split_once-append}
use revproxy.Auth.{
  unix, second, ttl, expiry, floor_div, split_token, signature, signed_token, token, verify_parts,
  verify,
}

floor_div-IsInt64 :
    (z : ℤ) → pos_part z < 2 ^ 64 → neg_part z ≤ 2 ^ 64 → IsInt64 (floor_div z second)
unfolding floor_div
floor_div-IsInt64 (pos n) h k = (omega arith, omega arith)
floor_div-IsInt64 (negsuc n) h k = (omega arith, omega arith)

ttl-IsInt64 : (adm : Admin) → IsInt64 (ttl adm)
unfolding ttl
ttl-IsInt64 adm = wrap64-IsInt64 (default_to 12 adm.session_ttl *ℤ pos (3600 * second))

sum-bounds :
    (now : ℕ) (d : ℤ)
    → now < 2 ^ 63
    → IsInt64 d
    → (pos_part (pos now +ℤ d) < 2 ^ 64) × (neg_part (pos now +ℤ d) ≤ 2 ^ 64)
unfolding ◌+ℤ◌
sum-bounds now d h v = ground arith

-- The expiry of a token is a number of 64 bits as long as the clock is one.
expiry-IsInt64 : (now : ℕ) (adm : Admin) → now < 2 ^ 63 → IsInt64 (expiry now adm)
unfolding expiry
expiry-IsInt64 now adm h =
    let (p, n) = sum-bounds now (ttl adm) h (ttl-IsInt64 adm) in floor_div-IsInt64 _ p n

has_byte-append_cons : (b : ℕ) (s t : Bytes) → has_byte b (s ++ b ∷ t) ≡ true
unfolding has_byte
has_byte-append_cons b [] t = ground arith
has_byte-append_cons b (c ∷ s) t = ground (arith, has_byte-append_cons b s t)

-- Of two cuts of a text the one before a text with no such byte leaves the others behind it.
later_cut :
    (b : ℕ) (s l t r : Bytes)
    → has_byte b s ≡ true
    → has_byte b l ≡ false
    → s ++ b ∷ t ≡ l ++ b ∷ r
    → has_byte b r ≡ true
unfolding has_byte
later_cut b [] l t r h k e = cc
later_cut b (c ∷ s) [] t r h k e =
    subst (λ (x : Bytes). has_byte b x ≡ true) (tail-eq_of_cons-eq e) (has_byte-append_cons b s t)
later_cut b (c ∷ s) (d ∷ l) t r h k e =
    let same = head-eq_of_cons-eq e in
    let rest = tail-eq_of_cons-eq e in
    elim (Bool-cases (c == b)) [
      | inl hit ↦ ground (arith, same)
      | inr miss ↦ later_cut b s l t r (ground (arith, same)) (ground arith) rest
    ]

-- A cut at the first dot.
split_once-some :
    (b : ℕ) (s l r : Bytes)
    → split_once b s ≡ some (l, r)
    → (s ≡ l ++ b ∷ r) × (has_byte b l ≡ false)
unfolding split_once has_byte
split_once-some b [] l r e = cc
split_once-some b (c ∷ s) l r e = elim (Option-cases (split_once b s)) [
  | inl n ↦ ground arith
  | inr ((m, q), f) ↦ ground (arith, split_once-some b s m q f)
]

split_token-some :
    (s stamp rest user tag : Bytes)
    → split_once b'.' s ≡ some (stamp, rest)
    → split_once b'.' rest ≡ some (user, tag)
    → split_token s ≡ some (stamp, (user, tag))
unfolding split_token
split_token-some s stamp rest user tag e f = ground arith

pub is_empty-append_cons : (s t : Bytes) (b : ℕ) → is_empty (s ++ b ∷ t) ≡ false
is_empty-append_cons [] t b = refl
is_empty-append_cons (_ ∷ s) t b = refl

module _ (k : Crypto) where
  -- What a token must be for the user to have a session.
  pub record IsSession (now : ℕ) (secret user : Bytes) (t : Bytes) : Type 0 where
    pub stamp : Bytes
    pub exp : ℤ
    pub same : t ≡ stamp ++ b'.' ∷ (user ++ b'.' ∷ signature k secret user exp)
    pub dated : parse_int stamp ≡ some exp
    pub bare_stamp : has_byte b'.' stamp ≡ false
    pub bare_user : has_byte b'.' user ≡ false
    pub on_time : pos (unix now) ≤ℤ exp

  verify-parts :
      (now : ℕ) (adm : Admin) (t : Bytes) (parts : Bytes × (Bytes × Bytes))
      → is_empty t ≡ false
      → split_token t ≡ some parts
      → verify k now adm t ≡ verify_parts k now adm parts
  unfolding verify
  verify-parts now adm t parts e f = rw (e, f) refl

  verify_parts-some :
      (now : ℕ) (adm : Admin) (stamp user tag : Bytes) (exp : ℤ)
      → parse_int stamp ≡ some exp
      → pos (unix now) ≤ℤ exp
      → signature k adm.secret user exp ≡ tag
      → verify_parts k now adm (stamp, (user, tag)) ≡ some user
  unfolding verify_parts
  verify_parts-some now adm stamp user tag exp e h f =
      let on_time : ltb_ℤ exp (pos (unix now)) ≡ false = ground arith in
      ground (arith, on_time, bytes_eq_iff (signature k adm.secret user exp) tag)

  verify-of_IsSession :
      (now : ℕ) (adm : Admin) (user t : Bytes)
      → IsSession now adm.secret user t
      → verify k now adm t ≡ some user
  verify-of_IsSession now adm user t v =
      let tag = signature k adm.secret user v.exp in
      rw v.same (
        verify-parts now adm (v.stamp ++ b'.' ∷ (user ++ b'.' ∷ tag)) (v.stamp, (user, tag))
          (is_empty-append_cons v.stamp (user ++ b'.' ∷ tag) b'.')
          (split_token-some (v.stamp ++ b'.' ∷ (user ++ b'.' ∷ tag)) v.stamp (user ++ b'.' ∷ tag)
            user tag (split_once-append b'.' v.stamp (user ++ b'.' ∷ tag) v.bare_stamp)
            (split_once-append b'.' user tag v.bare_user))
        ∙ verify_parts-some now adm v.stamp user tag v.exp v.dated v.on_time refl)

  parts-of_verify :
      (now : ℕ) (adm : Admin) (user t : Bytes)
      → verify k now adm t ≡ some user
      → (parts : Bytes × (Bytes × Bytes)) × ((split_token t ≡ some parts)
          × (verify_parts k now adm parts ≡ some user))
  unfolding verify
  parts-of_verify now adm user t e = elim (Bool-cases (is_empty t)) [
    | inl bare ↦ cc
    | inr full ↦ elim (Option-cases (split_token t)) [
      | inl short ↦ cc
      | inr (parts, f) ↦ (parts, (f, (rw (full, f) at e)))
    ]
  ]

  cuts-of_split_token :
      (t stamp user tag : Bytes)
      → split_token t ≡ some (stamp, (user, tag))
      → (rest : Bytes) × ((split_once b'.' t ≡ some (stamp, rest))
          × (split_once b'.' rest ≡ some (user, tag)))
  unfolding split_token
  cuts-of_split_token t stamp user tag e = elim (Option-cases (split_once b'.' t)) [
    | inl none_left ↦ cc
    | inr ((a, rest), f) ↦ elim (Option-cases (split_once b'.' rest)) [
      | inl none_left ↦ cc
      | inr ((u, r), g) ↦ (rest, (cc, cc))
    ]
  ]

  exp-of_verify_parts :
      (now : ℕ) (adm : Admin) (stamp user tag got : Bytes)
      → verify_parts k now adm (stamp, (user, tag)) ≡ some got
      → (exp : ℤ) × ((parse_int stamp ≡ some exp)
          × ((pos (unix now) ≤ℤ exp) × ((signature k adm.secret user exp ≡ tag) × (user ≡ got))))
  unfolding verify_parts
  exp-of_verify_parts now adm stamp user tag got e = elim (Option-cases (parse_int stamp)) [
    | inl bad ↦ cc
    | inr (exp, f) ↦ (exp, ground (arith, bytes_eq_iff (signature k adm.secret user exp) tag))
  ]

  IsSession-of_verify :
      (now : ℕ) (adm : Admin) (user t : Bytes)
      → verify k now adm t ≡ some user
      → IsSession now adm.secret user t
  IsSession-of_verify now adm user t e =
      let ((stamp, (u, tag)), (f, g)) = parts-of_verify now adm user t e in
      let (rest, (cut, cut_again)) = cuts-of_split_token t stamp u tag f in
      let (exp, (dated, (on_time, (signed, same)))) =
        exp-of_verify_parts now adm stamp u tag user g in
      let (front, bare) = split_once-some b'.' t stamp rest cut in
      let (back, bare_user) = split_once-some b'.' rest u tag cut_again in
      record {
        stamp = stamp;
        exp = exp;
        same = cc;
        dated = dated;
        bare_stamp = bare;
        bare_user = rw (sym same) bare_user;
        on_time = on_time;
      }

  -- `Verify` answers with a user exactly for the texts that are an expiry, the user and the
  -- signature of both under the secret in force, with dots between; the expiry must parse and
  -- must not be over, and neither it nor the user has a dot.
  pub verify_iff :
      (now : ℕ) (adm : Admin) (user t : Bytes)
      → (verify k now adm t ≡ some user) ↔ IsSession now adm.secret user t
  verify_iff now adm user t =
      (IsSession-of_verify now adm user t, verify-of_IsSession now adm user t)

  -- A token is its own proof of a session.
  IsSession-token :
      (now later : ℕ) (adm : Admin) (user : Bytes)
      → now < 2 ^ 63
      → pos (unix later) ≤ℤ expiry now adm
      → has_byte b'.' user ≡ false
      → IsSession later adm.secret user (token k now adm user)
  unfolding token signed_token
  IsSession-token now later adm user clock h bare = record {
    stamp = show_ℤ (expiry now adm);
    exp = expiry now adm;
    same = refl;
    dated = parse_int-show_ℤ (expiry now adm) (expiry-IsInt64 now adm clock);
    bare_stamp = has_byte-show_ℤ (expiry now adm);
    bare_user = bare;
    on_time = h;
  }

  signature-bare :
      (secret user : Bytes) (exp : ℤ) → has_byte b'.' (signature k secret user exp) ≡ false
  unfolding signature
  signature-bare secret user exp = k.no_dot (k.hmac secret (user ++ b':' ∷ show_ℤ exp))

  not_IsSession-dotted :
      (later : ℕ) (secret user other : Bytes) (exp : ℤ)
      → has_byte b'.' user ≡ true
      → ¬ IsSession later secret other (signed_token k secret user exp)
  unfolding signed_token
  not_IsSession-dotted later secret user other exp dotted v =
      let mine = signature k secret user exp in
      let theirs = signature k secret other v.exp in
      let cut : split_once b'.' (show_ℤ exp ++ b'.' ∷ (user ++ b'.' ∷ mine))
          ≡ some (show_ℤ exp, user ++ b'.' ∷ mine) =
        split_once-append b'.' (show_ℤ exp) (user ++ b'.' ∷ mine) (has_byte-show_ℤ exp) in
      let cut_theirs : split_once b'.' (v.stamp ++ b'.' ∷ (other ++ b'.' ∷ theirs))
          ≡ some (v.stamp, other ++ b'.' ∷ theirs) =
        split_once-append b'.' v.stamp (other ++ b'.' ∷ theirs) v.bare_stamp in
      let rest : user ++ b'.' ∷ mine ≡ other ++ b'.' ∷ theirs = cc in
      let found : has_byte b'.' theirs ≡ true =
        later_cut b'.' user other mine theirs dotted v.bare_user rest in
      let clean : has_byte b'.' theirs ≡ false = signature-bare secret other v.exp in cc

  -- What the token of a user is worth at a later time, under the secret that signed it, while it
  -- is not over and the clock is below 2 ^ 63 nanoseconds: `Verify` answers with the user, except
  -- where the name of the user has a dot in it, when it refuses the token.
  pub verify-token :
      (now later : ℕ) (adm in_force : Admin) (user : Bytes)
      → now < 2 ^ 63
      → in_force.secret ≡ adm.secret
      → pos (unix later) ≤ℤ expiry now adm
      → verify k later in_force (token k now adm user)
        ≡ (if has_byte b'.' user then none else some user)
  unfolding token
  verify-token now later adm in_force user clock kept h =
      let t = token k now adm user in
      elim (Bool-cases (has_byte b'.' user)) [
        | inl dotted ↦ rw dotted (elim (Option-cases (verify k later in_force t)) [
          | inl refused ↦ refused
          | inr (other, e) ↦ absurd (
              not_IsSession-dotted later in_force.secret user other (expiry now adm) dotted (
                IsSession-of_verify later in_force other _ (
                  subst
                    (λ (x : Bytes).
                      verify k later in_force (signed_token k x user (expiry now adm)) ≡ some other)
                    (sym kept) e)))
        ])
        | inr bare ↦ rw bare (
            verify-of_IsSession later in_force user t (
              subst (λ (x : Bytes). IsSession later x user t) (sym kept)
                (IsSession-token now later adm user clock h bare)))
      ]
