-- ===== src/Health.antt =====
-- health/health.controller.ts of order-service and user-service, and that of api-gateway. @nestjs/terminus
-- is a parameter: the status that `check` answers with for its indicators, each of which is up or down,
-- and the ping of the database. The probes of notification-worker are Notifications.Health.
pub mod Laws
use platform_engineering_lab.Prelude.{ℕ, Bool, true, List, [], ◌∷◌, Option, none}
use platform_engineering_lab.Auth.Guard.{Route}

-- @Public()
abbrev pub probe_route : Route
probe_route = record { is_public = true; roles = none }

-- GET /health/live
abbrev pub live : ℕ
live = 200

-- GET /health/ready, from the ping within its two seconds.
unfoldable pub ready : (List Bool → ℕ) → Bool → ℕ
ready check ping = check (ping ∷ [])

-- GET /health/ready of api-gateway, whatever its upstreams do.
abbrev pub gateway_ready : ℕ
gateway_ready = 200
