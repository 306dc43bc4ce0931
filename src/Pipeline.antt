-- ===== src/Pipeline.antt =====
-- How a service answers a request of one route: NestJS runs the global guard (APP_GUARD in
-- auth/auth.module.ts), then the pipes and the handler, and hands what they throw to the global filter
-- (APP_FILTER in app.module.ts). The pipes belong to the handler here.
pub mod Laws
use platform_engineering_lab.Prelude.{
  ℕ, String, Bool, true, false, Option, none, some, Result, ok, throw,
}
use platform_engineering_lab.Effects.{Act, raise}
use platform_engineering_lab.Auth.Http.{HttpException, Refusal}
use platform_engineering_lab.Auth.Verifier.{Principal, VerifyError}
use platform_engineering_lab.Auth.Guard.{Route, can_activate}
use platform_engineering_lab.Database.Errors.{JsError, nil, error}
use platform_engineering_lab.Database.Filter.{Exception, http, failure, filter_exception}

-- A response: the handler's status and body; the status and message of an HttpException, with or
-- without the header `www-authenticate: Bearer`; or the 500 of any other error.
pub data Answer (A : Type 0) : Type 0 where
  replied : ℕ → A → Answer A
  refused : HttpException → Bool → Answer A
  broken : JsError → Answer A

-- What `@CurrentPrincipal()` leads to on a request without a principal: reading a property of
-- undefined.
abbrev pub type_error : JsError
type_error = error false none (some "Cannot read properties of undefined") none nil nil

-- What a pipe says of its argument.
abbrev pub piped : {A : Type 0} → Result HttpException A → Result Exception A
piped (ok a) = ok a
piped (throw e) = throw (http e)

abbrev pub of_exception : {A : Type 0} → Exception → Answer A
of_exception (http e) = refused e false
of_exception (failure err) = broken err

module _ {W A : Type 0} where
  abbrev pub for_principal :
      (Principal → Act Exception W (ℕ × A)) → Option Principal → Act Exception W (ℕ × A)
  for_principal handler none = raise (failure type_error)
  for_principal handler (some p) = handler p

  -- The counters of a service: recordAuthRejection and recordDatabaseUnavailable.
  module _ (reject : String → W → W) (outage : W → W) where
    abbrev pub filtered : Bool × Exception → W → Answer A × W
    filtered (true, x) w = (of_exception x, outage w)
    filtered (false, x) w = (of_exception x, w)

    abbrev pub answered : Result Exception (ℕ × A) × W → Answer A × W
    answered (ok (status, body), w) = (replied status body, w)
    answered (throw x, w) = filtered (filter_exception x) w

    module _ (verify : String → Result VerifyError Principal) where
      abbrev pub behind :
          Result Refusal (Option Principal)
          → (Option Principal → Act Exception W (ℕ × A))
          → W
          → Answer A × W
      behind (ok principal) handler w = answered (handler principal w)
      behind (throw r) handler w = (refused r.exception r.challenge, reject r.reason w)

      unfoldable pub serve :
          Route → Option String → (Principal → Act Exception W (ℕ × A)) → W → Answer A × W
      serve route authorization handler w =
          behind (can_activate verify route authorization) (for_principal handler) w
