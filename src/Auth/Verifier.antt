-- ===== src/Auth/Verifier.antt =====
-- auth/token-verifier.ts. `jwtVerify` of the package jose, with the key resolver that it is given, is
-- a parameter: from a token and the options to the payload, or to the error that it throws.
pub mod Laws
use platform_engineering_lab.Prelude.{
  ℕ, String, Bool, List, [], ◌∷◌, ◌==◌, if◌then◌else◌, Result, ok, throw,
}
use platform_engineering_lab.Js.Json.{Json, string, property, strings_of}
use platform_engineering_lab.Js.Text.{to_lower_case}
use platform_engineering_lab.Js.Uuid.{is_uuid}

pub record Principal : Type 0 where
  pub sub : String
  pub roles : List String

pub data RejectReason : Type 0 where
  missing malformed expired not_yet_valid signature issuer audience claims : RejectReason

-- TokenInvalid and KeysUnavailable
pub data VerifyError : Type 0 where
  token_invalid : RejectReason → VerifyError
  keys_unavailable : String → VerifyError

pub record VerifierOptions : Type 0 where
  pub issuer : String
  pub audience : String
  pub clock_tolerance_seconds : ℕ

-- The classes of jose that `classify` asks for, with the claim of a failed validation; any other
-- Error with its message; and what is no Error.
pub data Thrown : Type 0 where
  jwt_expired : Thrown
  jwt_claim_validation_failed : String → Thrown
  jws_signature_verification_failed jwks_no_matching_key jwks_multiple_matching_keys : Thrown
  jose_alg_not_allowed jws_invalid jwt_invalid jose_not_supported : Thrown
  other_error : String → Thrown
  no_error : Thrown

unfoldable pub classify : Thrown → VerifyError
classify jwt_expired = token_invalid expired
classify (jwt_claim_validation_failed claim) =
    if claim == "iss"
    then token_invalid issuer
    else if claim == "aud"
    then token_invalid audience
    else if claim == "nbf"
    then token_invalid not_yet_valid
    else token_invalid claims
classify jws_signature_verification_failed = token_invalid signature
classify jwks_no_matching_key = token_invalid signature
classify jwks_multiple_matching_keys = token_invalid signature
classify jose_alg_not_allowed = token_invalid signature
classify jws_invalid = token_invalid malformed
classify jwt_invalid = token_invalid malformed
classify jose_not_supported = token_invalid malformed
classify (other_error message) = keys_unavailable message
classify no_error = keys_unavailable "key resolution failed"

pub record JwtVerifyOptions : Type 0 where
  pub issuer : String
  pub audience : String
  pub algorithms : List String
  pub clock_tolerance : ℕ
  pub required_claims : List String

abbrev pub JwtVerify : Type 0
JwtVerify = String → JwtVerifyOptions → Result Thrown Json

abbrev pub jwt_options : VerifierOptions → JwtVerifyOptions
jwt_options o = record {
  issuer = o.issuer;
  audience = o.audience;
  algorithms = "RS256" ∷ [];
  clock_tolerance = o.clock_tolerance_seconds;
  required_claims = "sub" ∷ "exp" ∷ [];
}

-- What is read from a payload that jose has accepted, by the payload's `sub`.
abbrev pub principal_of : Json → Json → Result VerifyError Principal
principal_of (string sub) payload =
    if is_uuid sub
    then ok (record {
      sub = to_lower_case sub;
      roles = strings_of (property "roles" (property "realm_access" payload));
    })
    else throw (token_invalid claims)
principal_of _ payload = throw (token_invalid claims)

abbrev pub read_payload : Result Thrown Json → Result VerifyError Principal
read_payload (ok payload) = principal_of (property "sub" payload) payload
read_payload (throw err) = throw (classify err)

unfoldable pub verify : JwtVerify → VerifierOptions → String → Result VerifyError Principal
verify jwt_verify options token = read_payload (jwt_verify token (jwt_options options))
