-- ===== src/Gateway/Middleware.antt =====
-- The request handlers of gateway/gateway.ts. express-rate-limit and http-proxy-middleware are
-- parameters, and so are the clock and randomUUID.
pub mod Outcomes
pub mod Laws
mod Tests
use platform_engineering_lab.Prelude.{
  ℕ, ◌+◌, String, Bool, true, false, List, [], ◌∷◌, ◌++◌, Option, none, some, Result, ok, throw,
  ◌==◌, if◌then◌else◌, leb,
}
use platform_engineering_lab.Auth.Verifier.{Principal, VerifyError, token_invalid, keys_unavailable}
use platform_engineering_lab.Auth.Guard.{bearer_token, reason_text}
use platform_engineering_lab.Gateway.Exchange
use platform_engineering_lab.Gateway.Exchange.{
  Response, Exchange, Forward, Log, auth_rejected, upstream_error, failed,
}
use platform_engineering_lab.Gateway.Routing.{Routes, is_health, path_of, route_of}

-- express-rate-limit: whether a client's request is within the limit, and the counters after it; and the
-- headers that it sets on the response (RateLimit-Policy, RateLimit, over the limit Retry-After).
pub record RateLimit : Type 1 where
  pub Limits : Type 0
  pub hit : (limit : ℕ) (address : String) (now : ℕ) → Limits → Bool × Limits
  pub headers : (limit : ℕ) (address : String) (now : ℕ) → Limits → List (String × String)

pub record ProxyOptions : Type 0 where
  pub target : String
  pub proxy_timeout : ℕ
  pub timeout : ℕ

-- What comes of a request that a proxy sends on: the upstream's response, passed on; or an error, with
-- its code, its time, whether the response had begun, and whether there is one to write to.
pub data Proxied : Type 0 where
  passed_on : (status : ℕ) → Proxied
  broken : (code : Option String) (now : ℕ) (begun writable : Bool) → Proxied

pub record GatewayConfig : Type 0 where
  pub routes : Routes
  pub upstream_timeout_ms : ℕ
  pub rate_limit_per_minute : ℕ
  pub verifier : String → Result VerifyError Principal

-- Date.now() and randomUUID() as requestId() calls them.
pub record Entrance : Type 0 where
  pub now : ℕ
  pub fresh : String

abbrev pub given_id : Option String → String → String
given_id none fresh = fresh
given_id (some incoming) fresh = if incoming == "" then fresh else incoming

abbrev pub chosen_id : Option String → Option String → String → String
chosen_id none incoming fresh = given_id incoming fresh
chosen_id (some assigned) incoming fresh = assigned

-- Date.now() - (startedAt.get(req) ?? Date.now()) >= upstreamTimeoutMs - 50, without the subtractions.
abbrev pub timed_out : ℕ → Option ℕ → ℕ → Bool
timed_out timeout_ms none now = leb timeout_ms 50
timed_out timeout_ms (some started) now = leb (timeout_ms + started) (now + 50)

abbrev pub code_text : Option String → String
code_text none = "unknown"
code_text (some code) = code

-- Whether `next` is called, and the exchange after it.
abbrev pub Handler : Type 0 → Type 0
Handler S = S → Bool × S

module _ {S : Type 0} where
  -- Handlers in order, each called by the `next` of the one before.
  unfoldable pub run_all : List (Handler S) → Handler S
  run_all [] s = (true, s)
  run_all (h ∷ hs) s =
      let (go, s') = h s in let rest = run_all hs s' in if go then rest else (false, s')

module _ {Limits : Type 0} where
  unfoldable pub request_id : Entrance → Handler (Exchange Limits)
  request_id entrance s =
      let id = chosen_id s.assigned s.request_id entrance.fresh in
      (
        true,
        record s {
          request_id = some id;
          response = record s.response { request_id = some id };
          started_at = some entrance.now;
        },
      )

  abbrev pub too_many : Bool × Limits → Exchange Limits → Bool × Exchange Limits
  too_many (true, l) s = (true, record s { limits = l })
  too_many (false, l) s =
      (false, failed 429 "Too many requests, retry later" (record s { limits = l }))

  abbrev pub reject : String → Exchange Limits → Bool × Exchange Limits
  reject reason s = (
    false,
    failed 401 "Invalid or missing token" (record s {
      rejections = s.rejections ++ reason ∷ [];
      log = s.log ++ auth_rejected s.request_id reason ∷ [];
      response = record s.response { challenge = true };
    }),
  )

  abbrev pub after_verify : Result VerifyError Principal → Exchange Limits → Bool × Exchange Limits
  after_verify (ok p) s = (true, s)
  after_verify (throw (token_invalid reason)) s = reject (reason_text reason) s
  after_verify (throw (keys_unavailable message)) s = (
    false,
    failed 503 "Authentication is temporarily unavailable" (record s {
      rejections = s.rejections ++ "keys_unavailable" ∷ [];
      log = s.log ++ Exchange.keys_unavailable s.request_id message ∷ [];
    }),
  )

  abbrev pub with_token : GatewayConfig → Option String → Exchange Limits → Bool × Exchange Limits
  with_token config none s = reject "missing" s
  with_token config (some token) s = after_verify (config.verifier token) s

  unfoldable pub authenticate : GatewayConfig → Handler (Exchange Limits)
  authenticate config s = with_token config (bearer_token s.authorization) s

  abbrev pub gateway_error : Bool → Exchange Limits → Exchange Limits
  gateway_error true s = failed 504 "Upstream did not respond in time" s
  gateway_error false s = failed 502 "Upstream service unavailable" s

  -- The proxy's error listener.
  unfoldable pub on_error :
      GatewayConfig → String → Option String → ℕ → Bool → Exchange Limits → Exchange Limits
  on_error config target code now writable s =
      let late = timed_out config.upstream_timeout_ms s.started_at now in
      let logged = record s {
        log = s.log ++ upstream_error s.request_id target (code_text code) late ∷ [];
      } in
      if writable then gateway_error late logged else logged

  abbrev pub after_proxy : GatewayConfig → String → Proxied → Exchange Limits → Exchange Limits
  after_proxy config target (passed_on status) s = record s {
    response = record s.response { status_code = status; headers_sent = true; ended = true };
  }
  after_proxy config target (broken code now begun writable) s =
      on_error config target code now writable
        (record s { response = record s.response { headers_sent = begun } })

  -- The request as a proxy sends it on.
  abbrev pub forward_of : Exchange Limits → Forward
  forward_of s = record {
    original_url = s.original_url;
    request_id = s.request_id;
    authorization = s.authorization;
  }

-- What createProxyMiddleware is called with.
abbrev pub options_of : GatewayConfig → String → ProxyOptions
options_of config target = record {
  target = target;
  proxy_timeout = config.upstream_timeout_ms;
  timeout = config.upstream_timeout_ms + 5000;
}

module _ (proxy : ProxyOptions → Forward → Proxied) {Limits : Type 0} where
  unfoldable pub send_on : GatewayConfig → String → Exchange Limits → Exchange Limits
  send_on config target s =
      after_proxy config target (proxy (options_of config target) (forward_of s))
        (record s { forwarded = s.forwarded ++ (target, forward_of s) ∷ [] })

  abbrev pub send_if : Bool × Exchange Limits → GatewayConfig → String → Bool × Exchange Limits
  send_if (true, s) config target = (false, send_on config target s)
  send_if (false, s) config target = (false, s)

  abbrev pub routed :
      GatewayConfig → Option (String × String) → Exchange Limits → Bool × Exchange Limits
  routed config none s = (true, s)
  routed config (some (prefix, target)) s =
      send_if (authenticate config (record s { label = some prefix })) config target

  unfoldable pub router : GatewayConfig → Handler (Exchange Limits)
  router config s =
      if is_health s.original_url
      then (true, s)
      else routed config (route_of config.routes (path_of s.original_url)) s

module _ (rate_limit : RateLimit) where
  unfoldable pub limiter : ℕ → ℕ → Handler (Exchange rate_limit.Limits)
  limiter per_minute now s =
      if is_health s.original_url
      then (true, s)
      else too_many (rate_limit.hit per_minute s.address now s.limits) (record s {
        response = record s.response {
          rate_limit = rate_limit.headers per_minute s.address now s.limits;
        };
      })

module _ (rate_limit : RateLimit) (proxy : ProxyOptions → Forward → Proxied) where
  unfoldable pub create_gateway :
      GatewayConfig → Entrance → List (Handler (Exchange rate_limit.Limits))
  create_gateway config entrance =
      request_id entrance
      ∷ limiter rate_limit config.rate_limit_per_minute entrance.now
      ∷ router proxy config
      ∷ []

  -- A request through the gateway's handlers.
  unfoldable pub gateway : GatewayConfig → Entrance → Handler (Exchange rate_limit.Limits)
  gateway config entrance s = run_all (create_gateway config entrance) s
