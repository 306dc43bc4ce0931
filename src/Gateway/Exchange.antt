-- ===== src/Gateway/Exchange.antt =====
-- A request in gateway/gateway.ts with its response, and `fail`.
use platform_engineering_lab.Prelude.{
  ℕ, String, Bool, true, List, Option, none, some, if◌then◌else◌, eqb,
}

-- The JSON that `fail` sends.
pub record Failure : Type 0 where
  pub status_code : ℕ
  pub error : Option String
  pub message : String

-- The response as far as the gateway writes it: `request_id` is the header x-request-id, `challenge`
-- the header `www-authenticate: Bearer`, `rate_limit` the headers that express-rate-limit sets.
pub record Response : Type 0 where
  pub status_code : ℕ
  pub request_id : Option String
  pub challenge : Bool
  pub rate_limit : List (String × String)
  pub body : Option Failure
  pub headers_sent : Bool
  pub ended : Bool

abbrev pub status_text : ℕ → Option String
status_text status =
    if eqb status 401
    then some "Unauthorized"
    else if eqb status 429
    then some "Too Many Requests"
    else if eqb status 502
    then some "Bad Gateway"
    else if eqb status 503
    then some "Service Unavailable"
    else if eqb status 504
    then some "Gateway Timeout"
    else none

unfoldable pub fail : ℕ → String → Response → Response
fail status message res = if res.headers_sent then record res { ended = true } else record res {
  status_code = status;
  body = some (record { status_code = status; error = status_text status; message = message });
  headers_sent = true;
  ended = true;
}

-- logWarn and logError, with what their messages say.
pub data Log : Type 0 where
  auth_rejected : (request_id : Option String) (reason : String) → Log
  keys_unavailable : (request_id : Option String) (cause : String) → Log
  upstream_error : (request_id : Option String) (target code : String) (timed_out : Bool) → Log

-- A request that a proxy sends on.
pub record Forward : Type 0 where
  pub original_url : String
  pub request_id : Option String
  pub authorization : Option String

-- A request in the gateway. `request_id` and `authorization` are its headers, `assigned` the id that
-- the logger gave it, `label` the route of the telemetry; the counters of the limiter, the counted
-- rejections, the log and the requests sent upstream are kept beside it.
pub record Exchange (Limits : Type 0) : Type 0 where
  pub original_url : String
  pub address : String
  pub request_id : Option String
  pub assigned : Option String
  pub authorization : Option String
  pub started_at : Option ℕ
  pub response : Response
  pub label : Option String
  pub limits : Limits
  pub rejections : List String
  pub log : List Log
  pub forwarded : List (String × Forward)

module _ {Limits : Type 0} where
  abbrev pub failed : ℕ → String → Exchange Limits → Exchange Limits
  failed status message s = record s { response = fail status message s.response }
