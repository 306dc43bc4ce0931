-- ===== src/Auth/Guard/Laws.antt =====
-- Who passes the guard, and what a refused caller learns.
use Prim.Native.String
use platform_engineering_lab.Js.Pattern.{
  is_token, match_prefix, match_prefix-split, match_prefix-append,
}
use platform_engineering_lab.Prelude.{
  ◌≡◌, ◌↔◌, ◌⊎◌, inl, inr, ap, ◌∙◌, String, true, false, Option, none, some, arith, Result, ok,
  throw, Result-cases, Option-cases, Bool-cases,
}
use platform_engineering_lab.Auth.Http.{Refusal, unauthorized_exception}
use platform_engineering_lab.Auth.Verifier.{Principal, VerifyError}
use platform_engineering_lab.Auth.Guard.{
  Route, bearer, bearer_token, has_role, check_token, can_activate,
}

module _ (verify : String → Result VerifyError Principal) (route : Route)
    (authorization : Option String) where
  -- The request carries a token that the verifier accepts, of a principal with one of the roles.
  pub record IsAuthorized (p : Principal) : Type 0 where
    pub token : String
    pub carried : bearer_token authorization ≡ some token
    pub verified : verify token ≡ ok p
    pub role : has_role route.roles p ≡ true

  check_token_sound :
      (o : Option Principal)
      → check_token verify route.roles (bearer_token authorization) ≡ ok o
      → (p : Principal) × (o ≡ some p) × IsAuthorized p
  check_token_sound o h = elim (Option-cases (bearer_token authorization)) [
    | inl absent ↦ absurd (ground arith)
    | inr (token, carried) ↦ elim (Result-cases (verify token)) [
      | inl (p, verified) ↦ (
        p,
        ground arith,
        record { token = token; carried = carried; verified = verified; role = ground arith },
      )
      | inr (err, refused) ↦ absurd (ground arith)
    ]
  ]

  -- A request enters a route exactly when the route is public, without a principal, or when it
  -- carries a bearer token that verifies, as the token's principal, who has one of the route's roles
  -- if it names any.
  pub can_activate_iff :
      (o : Option Principal)
      → (can_activate verify route authorization ≡ ok o) ↔ (
          ((route.is_public ≡ true) × (o ≡ none))
          ⊎ ((route.is_public ≡ false) × ((p : Principal) × (o ≡ some p) × IsAuthorized p)))
  unfolding can_activate
  can_activate_iff o = elim (Bool-cases route.is_public) [
    | inl public ↦ (
      λ h. inl (public, ground arith),
      λ w. elim w [ inl (_, e) ↦ rw (public, e) | inr (private, _) ↦ absurd (cc) ],
    )
    | inr private ↦ (
      λ h. inr (private, check_token_sound o (ground arith)),
      λ w. elim w [
        | inl (public, e) ↦ absurd (cc)
        | inr (_, (p, e, a)) ↦ rw (private, e, a.carried, a.verified, a.role)
      ],
    )
  ]

  -- A refusal is one of three: 401 with the challenge, 403 or 503 without it; the body is the same
  -- for every reason that leads to its status.
  pub can_activate-generic :
      (r : Refusal)
      → can_activate verify route authorization ≡ throw r
      → ((r.exception ≡ unauthorized_exception) × (r.challenge ≡ true))
        ⊎ ((r.exception ≡ record { status = 403; message = "Forbidden" }) × (r.challenge ≡ false))
        ⊎ ((r.exception
              ≡ record { status = 503; message = "Authentication is temporarily unavailable" })
            × (r.challenge ≡ false))
  unfolding can_activate
  can_activate-generic r h = ground arith

-- A header holds a bearer token exactly when it is the scheme, "Bearer" in any case with one blank,
-- followed by that token, which is not empty and has no white space.
pub bearer_token_iff :
    (header token : String)
    → (bearer_token (some header) ≡ some token) ↔ (
        (scheme : String) × (header ≡ String.◌++◌ scheme token)
        × (match_prefix bearer scheme ≡ some "")
        × (is_token token ≡ true))
unfolding bearer_token
bearer_token_iff header token = (
  λ h. elim (Option-cases (match_prefix bearer header)) [
    | inl absent ↦ absurd (ground arith)
    | inr (rest, found) ↦
        let e : rest ≡ token = ground arith in
        let (scheme, split, whole) = match_prefix-split bearer header token (found ∙ ap some e) in
        (scheme, split, whole, ground arith)
  ],
  λ (scheme, split, whole, plain). rw (split, match_prefix-append bearer scheme token whole, plain),
)
