-- ===== src/Notifications/Health.antt =====
-- health/health.controller.ts of notification-worker. @nestjs/terminus is a parameter: the status that
-- `check` answers with for its indicators, each of which is up or down, and the ping of the database.
pub mod Laws
use platform_engineering_lab.Prelude.{ℕ, Bool, List, [], ◌∷◌}
use platform_engineering_lab.Notifications.Session.{Consumer, is_connected}

-- GET /health/live
abbrev pub live : ℕ
live = 200

-- GET /health/ready, from the ping within its two seconds and the state of the consumer.
unfoldable pub ready : (List Bool → ℕ) → Bool → Consumer → ℕ
ready check ping consumer = check (ping ∷ is_connected consumer ∷ [])
