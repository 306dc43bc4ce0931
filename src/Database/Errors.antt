-- ===== src/Database/Errors.antt =====
-- common/pg-errors.ts, and isDatabaseUnavailable in common/database-unavailable.filter.ts.
use platform_engineering_lab.Prelude.{
  ℕ, zero, suc, String, Bool, true, false, ◌||◌, List, [], ◌∷◌, Option, none, some, ◌==◌, any,
}
use platform_engineering_lab.Js.Text.{to_lower_case, starts_with, contains}

-- A thrown value: the properties that the services read, `nil` for null and undefined.
-- `query_failed` says that it is a QueryFailedError.
pub data JsError : Type 0 where
  nil : JsError
  error :
      (query_failed : Bool) (code message constraint : Option String) (driver_error cause : JsError)
      → JsError

abbrev pub code_of : JsError → Option String
code_of nil = none
code_of (error q c m k d e) = c

abbrev pub constraint_of : JsError → Option String
constraint_of nil = none
constraint_of (error q c m k d e) = k

-- The driver's error of a QueryFailedError.
abbrev pub failed_query : JsError → Option JsError
failed_query nil = none
failed_query (error true c m k d e) = some d
failed_query (error false c m k d e) = none

abbrev pub has_text : String → Option String → Bool
has_text t none = false
has_text t (some s) = s == t

abbrev pub unique_violation : String
unique_violation = "23505"

abbrev pub is_unique_code : Option JsError → Bool
is_unique_code none = false
is_unique_code (some d) = has_text unique_violation (code_of d)

unfoldable pub is_unique_violation : JsError → Bool
is_unique_violation err = is_unique_code (failed_query err)

abbrev pub connection_codes : List String
connection_codes =
    "ENOTFOUND" ∷ "EAI_AGAIN" ∷ "ECONNREFUSED" ∷ "ECONNRESET" ∷ "ETIMEDOUT" ∷ "EPIPE" ∷ "57P01"
    ∷ "57P02" ∷ "57P03" ∷ "53300" ∷ []

abbrev pub connection_messages : List String
connection_messages =
    "connection terminated" ∷ "timeout exceeded when trying to connect"
    ∷ "client has encountered a connection error" ∷ "connection is closed" ∷ []

unfoldable pub is_connection_code : Option String → Bool
is_connection_code none = false
is_connection_code (some code) = any (λ c. c == code) connection_codes || starts_with code "08"

pub is_connection_message : Option String → Bool
is_connection_message none = false
is_connection_message (some message) = any (contains (to_lower_case message)) connection_messages

-- `e.driverError ?? e.cause`
abbrev pub wrapped : JsError → JsError → JsError
wrapped nil cause = cause
wrapped driver_error cause = driver_error

-- The loop of isDatabaseUnavailable, with the rounds that are left.
unfoldable pub is_unavailable_from : ℕ → JsError → Bool
is_unavailable_from zero err = false
is_unavailable_from (suc n) nil = false
is_unavailable_from (suc n) (error q code message k driver_error cause) =
    is_connection_code code
    || is_connection_message message
    || is_unavailable_from n (wrapped driver_error cause)

unfoldable pub is_database_unavailable : JsError → Bool
unfolding is_unavailable_from
is_database_unavailable err = is_unavailable_from 3 err
