-- ===== src/Telemetry.antt =====
-- src/telemetry.ts of each service: which requests are left out of traces, and the flush at the
-- shutdown. sdk.shutdown() is a promise that may settle at any time, or never.
pub mod Laws
use platform_engineering_lab.Prelude.{
  ℕ, String, Bool, true, false, ◌||◌, Option, none, some, ◌==◌, ltb, if◌then◌else◌,
}
use platform_engineering_lab.Js.Text.{starts_with}
use platform_engineering_lab.Timing.{Pending, never, fulfils, rejects}

-- SHUTDOWN_TIMEOUT_MS of notification-worker; the other services have 5000.
abbrev pub shutdown_timeout_ms : ℕ
shutdown_timeout_ms = 2000

abbrev pub is_disabled : Option String → Bool
is_disabled none = false
is_disabled (some v) = v == "true"

unfoldable pub is_probe : Option String → Bool
is_probe none = false
is_probe (some url) = (url == "/health") || starts_with url "/health/"

abbrev raced : ℕ → ℕ → ℕ
raced limit t = if ltb limit t then limit else t

-- How long the race with the timer takes; a rejection counts as settled.
unfoldable pub flush_time : ℕ → Pending (Unit {0}) → ℕ
flush_time limit never = limit
flush_time limit (fulfils t done) = raced limit t
flush_time limit (rejects t message) = raced limit t

-- shutdownTelemetry, from whether there is an sdk.
unfoldable pub shutdown_telemetry : Bool → Pending (Unit {0}) → ℕ
shutdown_telemetry false flush = 0
shutdown_telemetry true flush = flush_time shutdown_timeout_ms flush
