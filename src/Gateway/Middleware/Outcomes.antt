-- ===== src/Gateway/Middleware/Outcomes.antt =====
-- What each request to the gateway comes to.
use platform_engineering_lab.Prelude.{
  ℕ, ◌≡◌, ◌⊎◌, inl, inr, String, Bool, true, false, List, [], ◌∷◌, ◌++◌, none, some, ok, throw,
  arith, Bool-cases, Option-cases, Result-cases,
}
use platform_engineering_lab.Auth.Verifier.{
  RejectReason, Principal, token_invalid, keys_unavailable,
}
use platform_engineering_lab.Auth.Guard.{bearer_token, reason_text}
use platform_engineering_lab.Gateway.Exchange.{Response, Exchange, Forward, fail}
use platform_engineering_lab.Gateway.Routing.{is_health, path_of, route_of}
use platform_engineering_lab.Gateway.Middleware.{
  RateLimit, ProxyOptions, Proxied, GatewayConfig, Entrance, chosen_id, run_all, request_id,
  authenticate, send_on, router, limiter, create_gateway, gateway,
}

module _ (rate_limit : RateLimit) (proxy : ProxyOptions → Forward → Proxied)
    (config : GatewayConfig) (entrance : Entrance) (s : Exchange rate_limit.Limits) where
  -- The request may go to an upstream: it is no probe, it is within the limit, its path has a route
  -- to that upstream, and it carries a token that verifies.
  pub record IsAdmitted (target : String) : Type 0 where
    pub routed : is_health s.original_url ≡ false
    pub within :
        (rate_limit.hit config.rate_limit_per_minute s.address entrance.now s.limits).0 ≡ true
    pub prefix : String
    pub route : route_of config.routes (path_of s.original_url) ≡ some (prefix, target)
    pub token : String
    pub carried : bearer_token s.authorization ≡ some token
    pub principal : Principal
    pub verified : config.verifier token ≡ ok principal

  -- The exchange as a proxy takes it.
  abbrev pub entered : String → Exchange rate_limit.Limits
  entered prefix = record s {
    request_id = some (chosen_id s.assigned s.request_id entrance.fresh);
    response = record s.response {
      request_id = some (chosen_id s.assigned s.request_id entrance.fresh);
      rate_limit = rate_limit.headers config.rate_limit_per_minute s.address entrance.now s.limits;
    };
    started_at = some entrance.now;
    limits = (rate_limit.hit config.rate_limit_per_minute s.address entrance.now s.limits).1;
    label = some prefix;
  }

  pub admitted-run :
      (target : String) (a : IsAdmitted target)
      → gateway rate_limit proxy config entrance s
        ≡ (false, send_on proxy config target (entered a.prefix))
  unfolding gateway create_gateway request_id limiter router authenticate run_all
  admitted-run target a = ground (arith, a.routed, a.within, a.route, a.carried, a.verified)

  abbrev run : Bool × Exchange rate_limit.Limits
  run = gateway rate_limit proxy config entrance s

  abbrev echoed : Response
  echoed = record s.response {
    request_id = some (chosen_id s.assigned s.request_id entrance.fresh);
  }

  abbrev limited : Response
  limited = record echoed {
    rate_limit = rate_limit.headers config.rate_limit_per_minute s.address entrance.now s.limits;
  }

  -- The gateway answers by itself, and sends nothing on. If the response has begun, it is only ended.
  pub record IsRefused (status : ℕ) (text message : String) (challenge : Bool)
      (rejections : List String) : Type 0 where
    pub stopped : run.0 ≡ false
    pub forwarded : run.1.forwarded ≡ s.forwarded
    pub counted : run.1.rejections ≡ rejections
    pub response :
        ((s.response.headers_sent ≡ false)
          × (run.1.response ≡ record limited {
            challenge = challenge;
            status_code = status;
            body = some (record { status_code = status; error = some text; message = message });
            headers_sent = true;
            ended = true;
          }))
        ⊎ ((s.response.headers_sent ≡ true)
            × (run.1.response ≡ record limited { challenge = challenge; ended = true }))

  abbrev pub Within : Bool → Type 0
  Within b = (rate_limit.hit config.rate_limit_per_minute s.address entrance.now s.limits).0 ≡ b

  -- The request goes on to the framework.
  pub record IsPassed (response_then : Response) : Type 0 where
    pub next : run.0 ≡ true
    pub forwarded : run.1.forwarded ≡ s.forwarded
    pub response : run.1.response ≡ response_then

  pub data Outcome : Type 0 where
    admitted : {target : String} → IsAdmitted target → Outcome
    probe : is_health s.original_url ≡ true → IsPassed echoed → Outcome
    unknown :
        is_health s.original_url ≡ false
        → Within true
        → route_of config.routes (path_of s.original_url) ≡ none
        → IsPassed limited
        → Outcome
    throttled :
        is_health s.original_url ≡ false
        → Within false
        → IsRefused 429 "Too Many Requests" "Too many requests, retry later" s.response.challenge
            s.rejections
        → Outcome
    no_token :
        bearer_token s.authorization ≡ none
        → IsRefused 401 "Unauthorized" "Invalid or missing token" true
            (s.rejections ++ "missing" ∷ [])
        → Outcome
    invalid :
        {token : String} {reason : RejectReason}
        → bearer_token s.authorization ≡ some token
        → config.verifier token ≡ throw (token_invalid reason)
        → IsRefused 401 "Unauthorized" "Invalid or missing token" true
            (s.rejections ++ reason_text reason ∷ [])
        → Outcome
    undecided :
        {token message : String}
        → bearer_token s.authorization ≡ some token
        → config.verifier token ≡ throw (keys_unavailable message)
        → IsRefused 503 "Service Unavailable" "Authentication is temporarily unavailable"
            s.response.challenge
            (s.rejections ++ "keys_unavailable" ∷ [])
        → Outcome

  outcome-probe : is_health s.original_url ≡ true → Outcome
  unfolding gateway create_gateway request_id limiter router authenticate run_all fail
  outcome-probe h =
      probe h (record { next = ground arith; forwarded = ground arith; response = ground arith })

  outcome-throttled : is_health s.original_url ≡ false → Within false → Outcome
  unfolding gateway create_gateway request_id limiter router authenticate run_all fail
  outcome-throttled h over = throttled h over (record {
    stopped = ground arith;
    forwarded = ground arith;
    counted = ground arith;
    response = ground arith;
  })

  outcome-unknown :
      is_health s.original_url ≡ false
      → Within true
      → route_of config.routes (path_of s.original_url) ≡ none
      → Outcome
  unfolding gateway create_gateway request_id limiter router authenticate run_all fail
  outcome-unknown h under absent =
      unknown h under absent
        (record { next = ground arith; forwarded = ground arith; response = ground arith })

  module _ (prefix target : String) (h : is_health s.original_url ≡ false) (under : Within true)
      (route : route_of config.routes (path_of s.original_url) ≡ some (prefix, target)) where
    outcome-no_token : bearer_token s.authorization ≡ none → Outcome
    unfolding gateway create_gateway request_id limiter router authenticate run_all fail
    outcome-no_token absent = no_token absent (record {
      stopped = ground arith;
      forwarded = ground arith;
      counted = ground arith;
      response = ground arith;
    })

    outcome-invalid :
        (token : String) (reason : RejectReason)
        → bearer_token s.authorization ≡ some token
        → config.verifier token ≡ throw (token_invalid reason)
        → Outcome
    unfolding gateway create_gateway request_id limiter router authenticate run_all fail
    outcome-invalid token reason carried refused = invalid carried refused (record {
      stopped = ground arith;
      forwarded = ground arith;
      counted = ground arith;
      response = ground arith;
    })

    outcome-undecided :
        (token message : String)
        → bearer_token s.authorization ≡ some token
        → config.verifier token ≡ throw (keys_unavailable message)
        → Outcome
    unfolding gateway create_gateway request_id limiter router authenticate run_all fail
    outcome-undecided token message carried refused = undecided carried refused (record {
      stopped = ground arith;
      forwarded = ground arith;
      counted = ground arith;
      response = ground arith;
    })

    outcome-routed : Outcome
    outcome-routed = elim (Option-cases (bearer_token s.authorization)) [
      | inl absent ↦ outcome-no_token absent
      | inr (token, carried) ↦ elim (Result-cases (config.verifier token)) [
        | inl (p, verified) ↦ admitted (record {
          routed = h;
          within = under;
          prefix = prefix;
          route = route;
          token = token;
          carried = carried;
          principal = p;
          verified = verified;
        })
        | inr (token_invalid reason, refused) ↦ outcome-invalid token reason carried refused
        | inr (keys_unavailable message, refused) ↦ outcome-undecided token message carried refused
      ]
    ]

  pub gateway-outcome : Outcome
  gateway-outcome = elim (Bool-cases (is_health s.original_url)) [
    | inl health ↦ outcome-probe health
    | inr h ↦
        elim (Bool-cases
          (rate_limit.hit config.rate_limit_per_minute s.address entrance.now s.limits).0) [
            | inr over ↦ outcome-throttled h over
            | inl under ↦ elim (Option-cases (route_of config.routes (path_of s.original_url))) [
              | inl absent ↦ outcome-unknown h under absent
              | inr ((prefix, target), route) ↦ outcome-routed prefix target h under route
            ]
          ]
  ]
