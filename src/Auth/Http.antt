-- ===== src/Auth/Http.antt =====
-- The HTTP exceptions of NestJS that the services throw, and what a refusal counts before it.
use platform_engineering_lab.Prelude.{ℕ, String, Bool}

pub record HttpException : Type 0 where
  pub status : ℕ
  pub message : String

-- A throw behind `recordAuthRejection(reason)`; `challenge` says that the response has the header
-- `www-authenticate: Bearer`.
pub record Refusal : Type 0 where
  pub reason : String
  pub challenge : Bool
  pub exception : HttpException

abbrev pub unauthorized_exception : HttpException
unauthorized_exception = record { status = 401; message = "Invalid or missing token" }

abbrev pub forbidden_exception : HttpException
forbidden_exception = record { status = 403; message = "Forbidden" }

abbrev pub authentication_unavailable : HttpException
authentication_unavailable = record {
  status = 503;
  message = "Authentication is temporarily unavailable";
}
