-- ===== src/Upstream.antt =====
-- pinoHttp in src/app.module.ts of each service: the id of a request, and which requests are not
-- logged. randomUUID is an argument.
pub mod Laws
mod Tests
use platform_engineering_lab.Prelude.{
  String, Bool, true, false, Option, none, some, ◌==◌, if◌then◌else◌,
}
use platform_engineering_lab.Js.Text.{starts_with}

-- genReqId: the id of the request, which is also the response's x-request-id.
unfoldable pub gen_req_id : Option String → String → String
gen_req_id none fresh = fresh
gen_req_id (some incoming) fresh = if incoming == "" then fresh else incoming

-- autoLogging.ignore
abbrev pub is_unlogged : Option String → Bool
is_unlogged none = false
is_unlogged (some url) = starts_with url "/health"
