-- ===== src/Auth/Tests.antt =====
-- Concrete tokens, routes and callers.

use platform_engineering_lab.Prelude.{
  ◌≡◌, ◌↔◌, ◌⊎◌, String, true, false, [], ◌∷◌, Option, none, some, Result, ok, throw, ◌==◌, ◌&&◌,
  any, if◌then◌else◌,
}
use platform_engineering_lab.Js.Json.{Json, string, object, field, end}
use platform_engineering_lab.Js.Text.{to_lower_case}
use platform_engineering_lab.Auth.Verifier.{
  Principal, VerifyError, VerifierOptions, JwtVerify, jwt_expired, other_error, verify,
}
use platform_engineering_lab.Auth.Verifier.Laws.{Names, verify_iff}
use platform_engineering_lab.Auth.Guard.{Route, can_activate}
use platform_engineering_lab.Auth.Guard.Laws.{IsAuthorized, can_activate_iff}

abbrev upper_id : String
upper_id = "3FA85F64-5717-4562-B3FC-2C963F66AFA6"

abbrev options : VerifierOptions
options = record { issuer = "i"; audience = "a"; clock_tolerance_seconds = 5 }

abbrev payload : Json
payload = object (field "sub" (string upper_id) end)

-- Accepts one token where RS256 is allowed; the keys cannot be fetched for another.
abbrev jose : JwtVerify
jose token o =
    if (token == "good") && any (λ a. a == "RS256") o.algorithms
    then ok payload
    else if token == "dark"
    then throw (other_error "timeout")
    else throw jwt_expired

abbrev caller : Principal
caller = record { sub = to_lower_case upper_id; roles = [] }

verify_iff_example : (verify jose options "good" ≡ ok caller) ↔ (
    (p : Json) × (jose "good" (record {
      issuer = options.issuer;
      audience = options.audience;
      algorithms = "RS256" ∷ [];
      clock_tolerance = options.clock_tolerance_seconds;
      required_claims = "sub" ∷ "exp" ∷ [];
    })
      ≡ ok p)
    × Names p caller)
verify_iff_example = verify_iff jose options "good" caller

abbrev admins : Route
admins = record { is_public = false; roles = some ("admin" ∷ []) }

abbrev checked : String → Result VerifyError Principal
checked token = verify jose options token

can_activate_iff_example : (can_activate checked admins (some "Bearer good") ≡ ok none) ↔ (
    ((false ≡ true) × (◌≡◌ {A = Option Principal} none none))
    ⊎ ((false ≡ false)
        × ((p : Principal) × (none ≡ some p) × IsAuthorized checked admins (some "Bearer good") p)))
can_activate_iff_example = can_activate_iff checked admins (some "Bearer good") none
