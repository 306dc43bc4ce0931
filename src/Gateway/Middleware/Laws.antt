-- ===== src/Gateway/Middleware/Laws.antt =====
-- What the gateway sends on, and what it answers where an upstream fails.
use platform_engineering_lab.Prelude.{
  ℕ, ◌+◌, ◌≤◌, ◌<◌, ◌≡◌, ◌↔◌, ◌⊎◌, refl, sym, ap, ◌∙◌, subst, String, Bool, true, false, List, [],
  ◌∷◌, ◌++◌, Option, some, arith,
}
use platform_engineering_lab.Gateway.Exchange.{Exchange, Forward, fail}
use platform_engineering_lab.Gateway.Middleware.{
  RateLimit, ProxyOptions, Proxied, GatewayConfig, Entrance, chosen_id, on_error, send_on, gateway,
  forward_of,
}
use platform_engineering_lab.Gateway.Middleware.Outcomes.{
  IsAdmitted, Outcome, admitted, probe, unknown, throttled, no_token, invalid, undecided,
  admitted-run, gateway-outcome,
}

module _ (rate_limit : RateLimit) (proxy : ProxyOptions → Forward → Proxied)
    (config : GatewayConfig) (entrance : Entrance) (s : Exchange rate_limit.Limits) where
  -- What goes upstream: the URL and the token as they came, with the id of the exchange.
  abbrev pub sent : Forward
  sent = record {
    original_url = s.original_url;
    request_id = some (chosen_id s.assigned s.request_id entrance.fresh);
    authorization = s.authorization;
  }

  abbrev run : Bool × Exchange rate_limit.Limits
  run = gateway rate_limit proxy config entrance s

  send_on-forwarded :
      (target : String) (x : Exchange rate_limit.Limits)
      → (send_on proxy config target x).forwarded ≡ x.forwarded ++ (target, forward_of x) ∷ []
  unfolding send_on on_error
  send_on-forwarded target x = ground arith

  forwarded-same :
      (f : List (String × Forward)) (target : String) (x : Forward)
      → f ≡ s.forwarded
      → s.forwarded ≡ []
      → f ≡ (target, x) ∷ []
      → ⊥
  forwarded-same f target x same start h = cc

  admitted-forwarded :
      (target : String)
      → s.forwarded ≡ []
      → IsAdmitted rate_limit proxy config entrance s target
      → run.1.forwarded ≡ (target, sent) ∷ []
  admitted-forwarded target start a =
      rw (admitted-run rate_limit proxy config entrance s target a, send_on-forwarded, start) refl

  forwards-IsAdmitted :
      (target : String) (x : Forward)
      → s.forwarded ≡ []
      → run.1.forwarded ≡ (target, x) ∷ []
      → Outcome rate_limit proxy config entrance s
      → IsAdmitted rate_limit proxy config entrance s target × (x ≡ sent)
  forwards-IsAdmitted target x start h (admitted {target = t} a) =
      let e = sym (admitted-forwarded t start a) ∙ h in
      (subst (IsAdmitted rate_limit proxy config entrance s) (cc e) a, cc e)
  forwards-IsAdmitted target x start h (probe _ r) =
      absurd (forwarded-same run.1.forwarded target x r.forwarded start h)
  forwards-IsAdmitted target x start h (unknown _ _ _ r) =
      absurd (forwarded-same run.1.forwarded target x r.forwarded start h)
  forwards-IsAdmitted target x start h (throttled _ _ r) =
      absurd (forwarded-same run.1.forwarded target x r.forwarded start h)
  forwards-IsAdmitted target x start h (no_token _ r) =
      absurd (forwarded-same run.1.forwarded target x r.forwarded start h)
  forwards-IsAdmitted target x start h (invalid _ _ r) =
      absurd (forwarded-same run.1.forwarded target x r.forwarded start h)
  forwards-IsAdmitted target x start h (undecided _ _ r) =
      absurd (forwarded-same run.1.forwarded target x r.forwarded start h)

  -- The gateway sends a request to an upstream exactly when the request is no probe, is within the
  -- limit, has a path under that upstream's prefix and carries a token that verifies; it is sent once,
  -- with its URL and its token unchanged and its id.
  pub gateway-forwards_iff :
      (target : String) (x : Forward)
      → s.forwarded ≡ []
      → (run.1.forwarded ≡ (target, x) ∷ [])
        ↔ (IsAdmitted rate_limit proxy config entrance s target × (x ≡ sent))
  gateway-forwards_iff target x start = (
    λ h. forwards-IsAdmitted target x start h (gateway-outcome rate_limit proxy config entrance s),
    λ (a, e). admitted-forwarded target start a ∙ ap (λ f. (target, f) ∷ []) (sym e),
  )

-- Where an upstream fails, a response that has begun is only ended, with its status and its body as
-- they are; otherwise it is 504 if the failure comes 50 ms before the timeout or later, counted from
-- the entrance of the request, and 502 if it comes earlier.
pub on_error-response :
    {Limits : Type 0} (config : GatewayConfig) (target : String) (code : Option String)
    (started now : ℕ) (s : Exchange Limits)
    → s.started_at ≡ some started
    → let res = (on_error config target code now true s).response in
      (res.ended ≡ true)
      × (res.headers_sent ≡ true)
      × (((s.response.headers_sent ≡ true)
            × (res.status_code ≡ s.response.status_code)
            × (res.body ≡ s.response.body))
          ⊎ ((s.response.headers_sent ≡ false)
              × (((config.upstream_timeout_ms + started ≤ now + 50) × (res.status_code ≡ 504))
                  ⊎ ((now + 50 < config.upstream_timeout_ms + started) × (res.status_code ≡ 502)))))
unfolding on_error fail
on_error-response config target code started now s h = ground arith
