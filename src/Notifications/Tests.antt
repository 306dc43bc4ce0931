-- ===== src/Notifications/Tests.antt =====
-- Concrete rows and sessions.
use platform_engineering_lab.Prelude.{◌≡◌, refl, false, [], ◌∷◌}
use platform_engineering_lab.Notifications.Reconnect.{Round, waits, waits_from, next_delay}

abbrev short : Round
short = record { lasted_ms = 20; stopping = false }

abbrev healthy : Round
healthy = record { lasted_ms = 60000; stopping = false }

backoff_resets :
    waits (short ∷ short ∷ short ∷ short ∷ healthy ∷ []) ≡ 2000 ∷ 4000 ∷ 8000 ∷ 10000 ∷ 1000 ∷ []
unfolding waits waits_from next_delay
backoff_resets = refl
