-- ===== src/Auth/Ownership/Laws.antt =====
-- The ownership rule for principals that the verifier has accepted.
use platform_engineering_lab.Prelude.{
  ◌≡◌, ◌↔◌, ◌⊎◌, inl, inr, sym, ◌∙◌, String, true, eq_iff, arith, ok, Bool-cases,
}
use platform_engineering_lab.Js.Text.{to_lower_case}
use platform_engineering_lab.Auth.Verifier.{Principal, VerifierOptions, JwtVerify, verify}
use platform_engineering_lab.Auth.Verifier.Laws.{verify-canonical}
use platform_engineering_lab.Auth.Ownership.{is_admin, assert_self_or_admin, owner_or_not_found}

-- The same UUID, written in either case.
abbrev pub SameId : String → String → Type 0
SameId a b = to_lower_case a ≡ to_lower_case b

-- A verified caller acts for a user id exactly when the caller is an admin or the token's subject is
-- that id, in either case of its letters.
pub assert_self_or_admin_iff :
    (jwt_verify : JwtVerify) (options : VerifierOptions) (token : String) (p : Principal)
    (user_id : String)
    → verify jwt_verify options token ≡ ok p
    → (assert_self_or_admin p user_id ≡ ok tt) ↔ ((is_admin p ≡ true) ⊎ SameId p.sub user_id)
unfolding assert_self_or_admin
assert_self_or_admin_iff jwt_verify options token p user_id h =
    let canonical = (verify-canonical jwt_verify options token p h).1 in
    (
      λ e. elim (Bool-cases (is_admin p)) [
        | inl admin ↦ inl admin
        | inr other ↦ inr (canonical ∙ (eq_iff p.sub (to_lower_case user_id)).0 (ground arith))
      ],
      λ w. elim w [
        | inl admin ↦ rw admin
        | inr same ↦ ground (arith, (eq_iff p.sub (to_lower_case user_id)).1 (sym canonical ∙ same))
      ],
    )

-- Both forms of the rule let the same callers through.
pub owner_or_not_found-same :
    (p : Principal) (owner_id message : String)
    → (owner_or_not_found p owner_id message ≡ ok tt) ↔ (assert_self_or_admin p owner_id ≡ ok tt)
unfolding owner_or_not_found assert_self_or_admin
owner_or_not_found-same p owner_id message = ground arith
