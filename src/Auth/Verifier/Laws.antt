-- ===== src/Auth/Verifier/Laws.antt =====
-- Which tokens are accepted, as whom, and when the answer is "cannot tell".
use platform_engineering_lab.Prelude.{
  ◌≡◌, ◌↔◌, inl, inr, refl, String, [], ◌∷◌, true, arith, ok, throw, Result-cases,
}
use platform_engineering_lab.Js.Json.{Json, string, property, strings_of}
use platform_engineering_lab.Js.Text.{to_lower_case, to_lower_case_idem}
use platform_engineering_lab.Js.Uuid.{is_uuid, is_uuid-to_lower_case}
use platform_engineering_lab.Auth.Verifier.{
  Principal, VerifierOptions, JwtVerify, jwt_options, Thrown, other_error, no_error, classify,
  keys_unavailable, principal_of, verify,
}

-- A payload that jose has accepted names the principal.
pub record Names (payload : Json) (p : Principal) : Type 0 where
  pub sub : String
  pub claimed : property "sub" payload ≡ string sub
  pub uuid : is_uuid sub ≡ true
  pub canonical : p.sub ≡ to_lower_case sub
  pub roles : p.roles ≡ strings_of (property "roles" (property "realm_access" payload))

principal_of_sound :
    (sub payload : Json) (p : Principal)
    → property "sub" payload ≡ sub
    → principal_of sub payload ≡ ok p
    → Names payload p
principal_of_sound (string s) payload p e h = record {
  sub = s;
  claimed = e;
  uuid = ground arith;
  canonical = ground arith;
  roles = ground arith;
}
principal_of_sound sub payload p e h = absurd (cc)

principal_of_complete :
    (payload : Json) (p : Principal)
    → Names payload p
    → principal_of (property "sub" payload) payload ≡ ok p
principal_of_complete payload p n = rw (n.claimed, n.uuid, ← n.roles, ← n.canonical)

-- A token is accepted exactly when jose accepts it under RS256 alone, the configured issuer, audience
-- and clock tolerance, with `sub` and `exp` required, and its `sub` is a UUID; the principal has that UUID in lower case and the
-- texts among the realm's roles.
pub verify_iff :
    (jwt_verify : JwtVerify) (options : VerifierOptions) (token : String) (p : Principal)
    → (verify jwt_verify options token ≡ ok p) ↔ (
        (payload : Json) × (jwt_verify token (record {
          issuer = options.issuer;
          audience = options.audience;
          algorithms = "RS256" ∷ [];
          clock_tolerance = options.clock_tolerance_seconds;
          required_claims = "sub" ∷ "exp" ∷ [];
        })
          ≡ ok payload)
        × Names payload p)
unfolding verify
verify_iff jwt_verify options token p = (
  λ h. elim (Result-cases (jwt_verify token (jwt_options options))) [
    | inl (payload, accepted) ↦ (
      payload,
      accepted,
      principal_of_sound (property "sub" payload) payload p refl (ground arith),
    )
    | inr (err, refused) ↦ absurd (ground arith)
  ],
  λ (payload, accepted, n). rw accepted (principal_of_complete payload p n),
)

-- Every accepted principal has a UUID in lower case, so that comparing two of them as texts
-- compares the UUIDs.
pub verify-canonical :
    (jwt_verify : JwtVerify) (options : VerifierOptions) (token : String) (p : Principal)
    → verify jwt_verify options token ≡ ok p
    → (is_uuid p.sub ≡ true) × (to_lower_case p.sub ≡ p.sub)
verify-canonical jwt_verify options token p h =
    let (payload, accepted, n) = (verify_iff jwt_verify options token p).0 h in
    (rw (n.canonical, is_uuid-to_lower_case) n.uuid, rw (n.canonical) (to_lower_case_idem n.sub))

-- The errors of jose that say nothing about the token.
abbrev pub IsForeign : Thrown → String → Type 0
IsForeign (other_error message) m = message ≡ m
IsForeign no_error m = m ≡ "key resolution failed"
IsForeign _ m = ⊥

classify-keys_unavailable_iff :
    (err : Thrown) (m : String) → (classify err ≡ keys_unavailable m) ↔ IsForeign err m
unfolding classify
classify-keys_unavailable_iff (other_error message) m = ground arith
classify-keys_unavailable_iff no_error m = ground arith
classify-keys_unavailable_iff err m = ground arith

principal_of-ne-keys :
    (sub payload : Json) (m : String) → principal_of sub payload ≡ throw (keys_unavailable m) → ⊥
principal_of-ne-keys (string s) payload m h = ground arith
principal_of-ne-keys sub payload m h = cc

-- The verifier answers "keys unavailable" exactly when jose throws none of the errors about tokens:
-- no error about a token is taken for an outage, and no outage for a verdict on the token.
pub verify-keys_unavailable_iff :
    (jwt_verify : JwtVerify) (options : VerifierOptions) (token m : String)
    → (verify jwt_verify options token ≡ throw (keys_unavailable m))
      ↔ ((err : Thrown) × (jwt_verify token (jwt_options options) ≡ throw err) × IsForeign err m)
unfolding verify
verify-keys_unavailable_iff jwt_verify options token m = (
  λ h. elim (Result-cases (jwt_verify token (jwt_options options))) [
    | inl (payload, accepted) ↦
        absurd (principal_of-ne-keys (property "sub" payload) payload m (rw accepted at h))
    | inr (err, refused) ↦ (err, refused, (classify-keys_unavailable_iff err m).0 (ground arith))
  ],
  λ (err, refused, foreign). rw (refused, (classify-keys_unavailable_iff err m).1 foreign),
)
