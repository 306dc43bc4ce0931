-- ===== src/Gateway/Middleware/Tests.antt =====
-- A request through the gateway at a concrete configuration.
use platform_engineering_lab.Prelude.{
  ℕ, ◌+◌, ◌≡◌, ◌↔◌, refl, String, false, [], ◌∷◌, none, some, Result, ok, throw, ◌==◌,
  if◌then◌else◌, ltb,
}
use platform_engineering_lab.Js.Text.{strip_prefix}
use platform_engineering_lab.Js.Pattern.{match_prefix, is_token}
use platform_engineering_lab.Auth.Verifier.{Principal, VerifyError, token_invalid, signature}
use platform_engineering_lab.Auth.Guard.{bearer_token}
use platform_engineering_lab.Gateway.Exchange.{Response, Exchange, Forward}
use platform_engineering_lab.Gateway.Routing.{path_of, is_under, route_of, app_routes}
use platform_engineering_lab.Gateway.Middleware.{
  RateLimit, ProxyOptions, Proxied, passed_on, GatewayConfig, Entrance, request_id, limiter, router,
  authenticate, send_on, run_all, create_gateway, gateway,
}
use platform_engineering_lab.Gateway.Middleware.Outcomes.{IsAdmitted}
use platform_engineering_lab.Gateway.Middleware.Laws.{sent, gateway-forwards_iff}

-- Counts all requests.
abbrev count_limit : RateLimit
count_limit = record {
  Limits = ℕ;
  hit = λ limit address now n. (ltb n limit, n + 1);
  headers = λ limit address now n. [];
}

abbrev up : ProxyOptions → Forward → Proxied
up options request = passed_on 200

abbrev one_token : String → Result VerifyError Principal
one_token token =
    if token == "t" then ok (record { sub = "a"; roles = [] }) else throw (token_invalid signature)

abbrev config : GatewayConfig
config = record {
  routes = app_routes "u" "o" "n";
  upstream_timeout_ms = 5000;
  rate_limit_per_minute = 1;
  verifier = one_token;
}

abbrev entrance : Entrance
entrance = record { now = 100; fresh = "id" }

abbrev empty : Response
empty = record {
  status_code = 200;
  request_id = none;
  challenge = false;
  rate_limit = [];
  body = none;
  headers_sent = false;
  ended = false;
}

abbrev request : String → ℕ → Exchange ℕ
request authorization limits = record {
  original_url = "/v1/orders/7?x";
  address = "127.0.0.1";
  request_id = none;
  assigned = none;
  authorization = some authorization;
  started_at = none;
  response = empty;
  label = none;
  limits = limits;
  rejections = [];
  log = [];
  forwarded = [];
}

request_forwarded :
    (gateway count_limit up config entrance (request "bearer t" 0)).1.forwarded
    ≡ ("o", sent count_limit up config entrance (request "bearer t" 0)) ∷ []
unfolding gateway create_gateway request_id limiter router authenticate send_on run_all route_of
    app_routes path_of is_under strip_prefix bearer_token match_prefix is_token
request_forwarded = refl

gateway-forwards_iff_example :
    ((gateway count_limit up config entrance (request "bearer t" 0)).1.forwarded
      ≡ ("o", sent count_limit up config entrance (request "bearer t" 0)) ∷ [])
    ↔ (IsAdmitted count_limit up config entrance (request "bearer t" 0) "o"
        × (sent count_limit up config entrance (request "bearer t" 0)
            ≡ sent count_limit up config entrance (request "bearer t" 0)))
gateway-forwards_iff_example =
    gateway-forwards_iff count_limit up config entrance (request "bearer t" 0) "o"
      (sent count_limit up config entrance (request "bearer t" 0)) refl
