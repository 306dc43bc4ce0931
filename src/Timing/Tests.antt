-- ===== src/Timing/Tests.antt =====
-- Attempts to connect.
use platform_engineering_lab.Prelude.{ℕ, ◌≡◌, refl, some}
use platform_engineering_lab.Timing.{Pending, fulfils, connect_with_timeout}

-- The name is resolved after 90 seconds.
abbrev late : Pending ℕ
late = fulfils 90000 7

late-closed : (connect_with_timeout late).closed_late ≡ some 7
unfolding connect_with_timeout
late-closed = refl
