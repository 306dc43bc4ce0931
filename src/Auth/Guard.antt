-- ===== src/Auth/Guard.antt =====
-- auth/auth.guard.ts. What `reflector.getAllAndOverride` answers for a route is part of the route.
pub mod Laws
use Prim.Native.String
use platform_engineering_lab.Prelude.{
  String, Bool, true, false, List, [], ◌∷◌, Option, none, some, ◌==◌, not, any, if◌then◌else◌,
  Result, ok, throw,
}
use platform_engineering_lab.Js.Pattern.{Class, letter, blank, match_prefix, is_token}
use platform_engineering_lab.Auth.Http.{
  Refusal, unauthorized_exception, forbidden_exception, authentication_unavailable,
}
use platform_engineering_lab.Auth.Verifier.{
  Principal, RejectReason, missing, malformed, expired, not_yet_valid, signature, issuer, audience,
  claims, VerifyError, token_invalid, keys_unavailable,
}

abbrev pub bearer : List Class
bearer =
    letter b'b' ∷ letter b'e' ∷ letter b'a' ∷ letter b'r' ∷ letter b'e' ∷ letter b'r' ∷ blank ∷ []

abbrev pub token_of : Option String → Option String
token_of none = none
token_of (some s) = if is_token s then some s else none

abbrev or_empty : Option String → String
or_empty none = ""
or_empty (some s) = s

-- /^Bearer ([^\s]+)$/i.exec(req.headers.authorization ?? '')
unfoldable pub bearer_token : Option String → Option String
bearer_token authorization = token_of (match_prefix bearer (or_empty authorization))

-- The decorators @Public and @Roles of a route.
pub record Route : Type 0 where
  pub is_public : Bool
  pub roles : Option (List String)

abbrev pub reason_text : RejectReason → String
reason_text missing = "missing"
reason_text malformed = "malformed"
reason_text expired = "expired"
reason_text not_yet_valid = "not_yet_valid"
reason_text signature = "signature"
reason_text issuer = "issuer"
reason_text audience = "audience"
reason_text claims = "claims"

abbrev pub unauthorized : RejectReason → Refusal
unauthorized reason = record {
  reason = reason_text reason;
  challenge = true;
  exception = unauthorized_exception;
}

abbrev pub refuse : VerifyError → Refusal
refuse (token_invalid reason) = unauthorized reason
refuse (keys_unavailable message) = record {
  reason = "keys_unavailable";
  challenge = false;
  exception = authentication_unavailable;
}

abbrev pub includes : String → List String → Bool
includes r = any (λ x. x == r)

-- `!roles || roles.some((r) => principal.roles.includes(r))`
abbrev pub has_role : Option (List String) → Principal → Bool
has_role none p = true
has_role (some roles) p = any (λ r. includes r p.roles) roles

abbrev pub check_roles : Option (List String) → Principal → Result Refusal (Option Principal)
check_roles roles p =
    if has_role roles p
    then ok (some p)
    else throw (record { reason = "role"; challenge = false; exception = forbidden_exception })

abbrev pub check_verified :
    Option (List String) → Result VerifyError Principal → Result Refusal (Option Principal)
check_verified roles (ok p) = check_roles roles p
check_verified roles (throw err) = throw (refuse err)

module _ (verify : String → Result VerifyError Principal) where
  abbrev pub check_token : Option (List String) → Option String → Result Refusal (Option Principal)
  check_token roles none = throw (unauthorized missing)
  check_token roles (some token) = check_verified roles (verify token)

  -- The request's principal where the route may be entered; a public route sets none.
  unfoldable pub can_activate : Route → Option String → Result Refusal (Option Principal)
  can_activate route authorization =
      if route.is_public then ok none else check_token route.roles (bearer_token authorization)
