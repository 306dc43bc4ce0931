-- ===== src/Health/Laws.antt =====
-- Who may ask the probes.
use platform_engineering_lab.Prelude.{◌≡◌, refl, String, Option, none, Result, ok}
use platform_engineering_lab.Auth.Verifier.{Principal, VerifyError}
use platform_engineering_lab.Auth.Guard.{can_activate}
use platform_engineering_lab.Health.{probe_route}

-- The guard lets every request enter a probe, with any token or none, and whatever the verifier says:
-- an outage of the identity provider does not fail it.
pub probe_route-open :
    (verify : String → Result VerifyError Principal) (authorization : Option String)
    → can_activate verify probe_route authorization ≡ ok none
unfolding can_activate
probe_route-open verify authorization = refl
