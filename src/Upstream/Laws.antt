-- ===== src/Upstream/Laws.antt =====
-- A request of the gateway, seen by the service that it is sent to.
use platform_engineering_lab.Prelude.{
  ◌≡◌, ◌≢◌, refl, ap, ◌∙◌, String, false, [], ◌∷◌, none, some, ok, ◌==◌, eq_iff, Bool-cases, inl,
  inr,
}
use platform_engineering_lab.Auth.Verifier.{Principal}
use platform_engineering_lab.Auth.Guard.{Route, bearer_token, has_role, can_activate}
use platform_engineering_lab.Auth.Guard.Laws.{can_activate_iff}
use platform_engineering_lab.Gateway.Exchange.{Exchange, Forward}
use platform_engineering_lab.Gateway.Middleware.{
  RateLimit, ProxyOptions, Proxied, GatewayConfig, Entrance, chosen_id, gateway,
}
use platform_engineering_lab.Gateway.Middleware.Laws.{gateway-forwards_iff}
use platform_engineering_lab.Upstream.{gen_req_id}

pub keeps_id : (id fresh : String) → id ≢ "" → gen_req_id (some id) fresh ≡ id
unfolding gen_req_id
keeps_id id fresh given = elim (Bool-cases (id == "")) [
  | inl blank ↦ absurd (given ((eq_iff id "").0 blank))
  | inr ink ↦ rw ink refl
]

module _ (rate_limit : RateLimit) (proxy : ProxyOptions → Forward → Proxied)
    (config : GatewayConfig) (entrance : Entrance) (s : Exchange rate_limit.Limits) where
  abbrev id : String
  id = chosen_id s.assigned s.request_id entrance.fresh

  -- A request that the gateway sends on enters every route of the service behind it that asks for no
  -- role, where that service verifies tokens as the gateway does: nobody whom the gateway lets through
  -- is refused there; and it has there the id that it has in the gateway, if that is not empty.
  pub forwarded-can_activate :
      (target : String) (x : Forward) (route : Route) (fresh : String)
      → s.forwarded ≡ []
      → (gateway rate_limit proxy config entrance s).1.forwarded ≡ (target, x) ∷ []
      → route.is_public ≡ false
      → route.roles ≡ none
      → id ≢ ""
      → ((p : Principal) × (can_activate config.verifier route x.authorization ≡ ok (some p)))
        × (gen_req_id x.request_id fresh ≡ id)
  forwarded-can_activate target x route fresh start went private any_role given =
      let (admitted, same) =
        (gateway-forwards_iff rate_limit proxy config entrance s target x start).0 went in
      (
        (
          admitted.principal,
          (can_activate_iff config.verifier route x.authorization (some admitted.principal)).1 (
              inr (
                private,
                (
                  admitted.principal,
                  refl,
                  record {
                    token = admitted.token;
                    carried =
                        ap (λ (f : Forward). bearer_token f.authorization) same ∙ admitted.carried;
                    verified = admitted.verified;
                    role = ap (λ roles. has_role roles admitted.principal) any_role;
                  },
                ),
              )),
        ),
        ap (λ (f : Forward). gen_req_id f.request_id fresh) same ∙ keeps_id id fresh given,
      )
