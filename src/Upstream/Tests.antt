-- ===== src/Upstream/Tests.antt =====
-- A request that goes on to order-service.
use platform_engineering_lab.Prelude.{
  ℕ, ◌+◌, ◌≡◌, refl, String, false, [], ◌∷◌, none, some, Result, ok, throw, ◌==◌, if◌then◌else◌,
  ltb,
}
use platform_engineering_lab.Js.Text.{strip_prefix}
use platform_engineering_lab.Js.Pattern.{match_prefix, is_token}
use platform_engineering_lab.Auth.Verifier.{Principal, VerifyError, token_invalid, signature}
use platform_engineering_lab.Auth.Guard.{Route, bearer_token}
use platform_engineering_lab.Gateway.Exchange.{Exchange, Forward}
use platform_engineering_lab.Gateway.Routing.{path_of, is_under, route_of, app_routes}
use platform_engineering_lab.Gateway.Middleware.{
  RateLimit, ProxyOptions, Proxied, passed_on, GatewayConfig, Entrance, request_id, limiter, router,
  authenticate, send_on, run_all, create_gateway, gateway,
}

abbrev no_limit : RateLimit
no_limit = record {
  Limits = ℕ;
  hit = λ limit address now n. (ltb n limit, n + 1);
  headers = λ limit address now n. [];
}

abbrev up : ProxyOptions → Forward → Proxied
up options request = passed_on 200

abbrev one_token : String → Result VerifyError Principal
one_token token =
    if token == "t" then ok (record { sub = "a"; roles = [] }) else throw (token_invalid signature)

abbrev config : GatewayConfig
config = record {
  routes = app_routes "u" "o" "n";
  upstream_timeout_ms = 5000;
  rate_limit_per_minute = 1;
  verifier = one_token;
}

abbrev entrance : Entrance
entrance = record { now = 100; fresh = "id" }

abbrev request : Exchange ℕ
request = record {
  original_url = "/v1/orders/7?x";
  address = "127.0.0.1";
  request_id = none;
  assigned = none;
  authorization = some "bearer t";
  started_at = none;
  response = record {
    status_code = 200;
    request_id = none;
    challenge = false;
    rate_limit = [];
    body = none;
    headers_sent = false;
    ended = false;
  };
  label = none;
  limits = 0;
  rejections = [];
  log = [];
  forwarded = [];
}

abbrev sent_on : Forward
sent_on = record {
  original_url = "/v1/orders/7?x";
  request_id = some "id";
  authorization = some "bearer t";
}

abbrev orders_route : Route
orders_route = record { is_public = false; roles = none }

goes_on : (gateway no_limit up config entrance request).1.forwarded ≡ ("o", sent_on) ∷ []
unfolding gateway create_gateway request_id limiter router authenticate send_on run_all route_of
    app_routes path_of is_under strip_prefix bearer_token match_prefix is_token
goes_on = refl
