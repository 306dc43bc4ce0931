-- ===== src/Notifications/Shutdown.antt =====
-- consumer.service.ts: how long onModuleDestroy takes, and the flush of telemetry.ts behind it, which
-- NestJS starts when onModuleDestroy has returned. What the fields hold at each step of it is
-- Notifications.Session.
pub mod Laws
mod Tests
use platform_engineering_lab.Prelude.{
  ℕ, ◌+◌, max, min, String, Bool, List, [], ◌∷◌, ◌++◌, Option, none, some, Result, ok, throw, ltb,
  if◌then◌else◌,
}
use platform_engineering_lab.Effects.{Act, ◌>>=◌, ◌>>◌, pure, catch}
use platform_engineering_lab.Timing.{Pending, with_timeout}
use platform_engineering_lab.Telemetry.{shutdown_telemetry}

abbrev pub cancel_timeout_ms : ℕ
cancel_timeout_ms = 1000

abbrev pub drain_timeout_ms : ℕ
drain_timeout_ms = 5000

abbrev pub close_timeout_ms : ℕ
close_timeout_ms = 1000

abbrev pub loop_timeout_ms : ℕ
loop_timeout_ms = 1000

-- What the method meets: the cancel, where there is a channel with a consumer; when each message in
-- flight is done, from the start of the wait for them; the close, where there is a connection; and
-- `loop`, where it has been started.
pub record Surroundings : Type 0 where
  pub cancel : Option (Pending (Unit {0}))
  pub in_flight : List (Option ℕ)
  pub close : Option (Pending (Unit {0}))
  pub loop : Option (Pending (Unit {0}))

pub data Warning : Type 0 where
  cancel_failed close_failed : (message : String) → Warning

-- The milliseconds since the signal.
pub record Clock : Type 0 where
  pub now : ℕ
  pub warnings : List Warning

abbrev pub Timed : Type 0 → Type 0
Timed A = Act String Clock A

abbrev pub passes : ℕ → Clock → Clock
passes ms s = record s { now = s.now + ms }

abbrev pub wait : ℕ → Timed (Unit {0})
wait ms s = (ok tt, passes ms s)

abbrev pub warn : Warning → Timed (Unit {0})
warn w s = (ok tt, record s { warnings = s.warnings ++ w ∷ [] })

-- if (…) await withTimeout(…, ms)
unfoldable pub await_if : Option (Pending (Unit {0})) → ℕ → Timed (Unit {0})
await_if none ms s = (ok tt, s)
await_if (some p) ms s = let (t, r) = with_timeout p ms in (r, passes t s)

abbrev pub later_of : Option ℕ → Option ℕ → Option ℕ
later_of none u = none
later_of (some t) none = none
later_of (some t) (some u) = some (max t u)

-- Promise.allSettled
abbrev pub all_settled : List (Option ℕ) → Option ℕ
all_settled [] = some 0
all_settled (t ∷ ts) = later_of t (all_settled ts)

abbrev pub up_to : ℕ → Option ℕ → ℕ
up_to ms none = ms
up_to ms (some t) = min ms t

-- Promise.race with the sleep
unfoldable pub drain_time : List (Option ℕ) → ℕ
drain_time ts = up_to drain_timeout_ms (all_settled ts)

unfoldable pub on_module_destroy : Surroundings → Timed (Unit {0})
on_module_destroy env = do
  catch (await_if env.cancel cancel_timeout_ms) (λ m. warn (cancel_failed m))
  wait (drain_time env.in_flight)
  catch (await_if env.close close_timeout_ms) (λ m. warn (close_failed m))
  await_if env.loop loop_timeout_ms

-- onApplicationShutdown follows.
unfoldable pub shut_down : Surroundings → Bool → Pending (Unit {0}) → Timed (Unit {0})
shut_down env sdk flush = do on_module_destroy env; wait (shutdown_telemetry sdk flush)

abbrev pub at_signal : Clock
at_signal = record { now = 0; warnings = [] }
