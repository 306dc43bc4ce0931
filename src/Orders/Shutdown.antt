-- ===== src/Orders/Shutdown.antt =====
-- How long order-service takes to stop: onModuleDestroy of EventPublisher and of CacheService, which
-- NestJS runs side by side, and the flush of telemetry.ts, which it starts when both have returned.
-- amqplib's close and ioredis' quit are promises that may settle at any time, or never.
pub mod Laws
mod Tests
use platform_engineering_lab.Prelude.{
  ℕ, ◌+◌, max, String, Bool, true, false, List, [], ◌∷◌, ◌++◌, Option, none, some,
}
use platform_engineering_lab.Timing.{Pending, never, fulfils, rejects}
use platform_engineering_lab.Telemetry.{flush_time}

-- SHUTDOWN_TIMEOUT_MS
abbrev pub shutdown_timeout_ms : ℕ
shutdown_timeout_ms = 5000

pub data Note : Type 0 where
  close_failed quit_failed : (message : String) → Note

-- When a method has returned, if it ever does, and what it has warned of; Redis is disconnected where
-- `quit` fails.
pub record Stopped : Type 0 where
  pub at : Option ℕ
  pub warnings : List Note
  pub disconnected : Bool

abbrev pub quietly : Option ℕ → Stopped
quietly t = record { at = t; warnings = []; disconnected = false }

-- EventPublisher.onModuleDestroy: `conn?.close()`, whose error is caught.
unfoldable pub destroy_publisher : Option (Pending (Unit {0})) → Stopped
destroy_publisher none = quietly (some 0)
destroy_publisher (some never) = quietly none
destroy_publisher (some (fulfils t done)) = quietly (some t)
destroy_publisher (some (rejects t message)) = record {
  at = some t;
  warnings = close_failed message ∷ [];
  disconnected = false;
}

-- CacheService.onModuleDestroy
unfoldable pub destroy_cache : Pending (Unit {0}) → Stopped
destroy_cache never = quietly none
destroy_cache (fulfils t done) = quietly (some t)
destroy_cache (rejects t message) = record {
  at = some t;
  warnings = quit_failed message ∷ [];
  disconnected = true;
}

-- Promise.all of the two.
abbrev pub both : Option ℕ → Option ℕ → Option ℕ
both none u = none
both (some t) none = none
both (some t) (some u) = some (max t u)

-- shutdownTelemetry, from whether there is an sdk.
unfoldable pub shutdown_telemetry : Bool → Pending (Unit {0}) → ℕ
shutdown_telemetry false flush = 0
shutdown_telemetry true flush = flush_time shutdown_timeout_ms flush

abbrev pub then_flush : ℕ → Option ℕ → Option ℕ
then_flush ms none = none
then_flush ms (some t) = some (t + ms)

-- The milliseconds from the signal to the end of the flush, if it comes to that.
unfoldable pub stop :
    Option (Pending (Unit {0})) → Pending (Unit {0}) → Bool → Pending (Unit {0}) → Option ℕ
stop close quit sdk flush =
    then_flush (shutdown_telemetry sdk flush)
      (both (destroy_publisher close).at (destroy_cache quit).at)
