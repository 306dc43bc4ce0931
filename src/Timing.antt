-- ===== src/Timing.antt =====
-- Waiting for a promise with a timer beside it: withTimeout of consumer.service.ts, connectWithTimeout
-- of consumer.service.ts and event-publisher.service.ts. Times are milliseconds; where both are due at
-- once, the promise comes first. What a promise settles as, and when, is amqplib's and the broker's.
pub mod Laws
mod Tests
use platform_engineering_lab.Prelude.{
  ℕ, String, Bool, List, Option, none, some, Result, ok, throw, ltb, if◌then◌else◌,
}

-- A promise, by when it settles from now on.
pub data Pending (A : Type 0) : Type 0 where
  never : Pending A
  fulfils : ℕ → A → Pending A
  rejects : ℕ → String → Pending A

abbrev pub Waited : Type 0 → Type 0
Waited A = ℕ × Result String A

-- The time waited, and the result; nothing of a promise is left after the timer.
unfoldable pub with_timeout : Pending (Unit {0}) → ℕ → Waited (Unit {0})
with_timeout never ms = (ms, ok tt)
with_timeout (fulfils t done) ms = if ltb ms t then (ms, ok tt) else (t, ok tt)
with_timeout (rejects t message) ms = if ltb ms t then (ms, ok tt) else (t, throw message)

abbrev pub connect_timeout_ms : ℕ
connect_timeout_ms = 2000

-- The time waited and its result, and the connection that comes too late and is closed.
pub record Connecting : Type 0 where
  pub waited : ℕ
  pub result : Result String ℕ
  pub closed_late : Option ℕ

abbrev pub timed_out : Option ℕ → Connecting
timed_out late = record {
  waited = connect_timeout_ms;
  result = throw "connect ETIMEDOUT (outer bound)";
  closed_late = late;
}

-- A connection is a number.
unfoldable pub connect_with_timeout : Pending ℕ → Connecting
connect_with_timeout never = timed_out none
connect_with_timeout (fulfils t conn) =
    if ltb connect_timeout_ms t
    then timed_out (some conn)
    else record { waited = t; result = ok conn; closed_late = none }
connect_with_timeout (rejects t message) =
    if ltb connect_timeout_ms t
    then timed_out none
    else record { waited = t; result = throw message; closed_late = none }
