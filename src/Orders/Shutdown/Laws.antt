-- ===== src/Orders/Shutdown/Laws.antt =====
-- When the stop of order-service comes to an end.
use platform_engineering_lab.Prelude.{
  ℕ, ◌+◌, ◌≤◌, ◌↔◌, Bool, true, false, Option, none, some, arith,
}
use platform_engineering_lab.Timing.{Pending, never, fulfils, rejects}
use platform_engineering_lab.Telemetry.Laws.{flush_time_bound}
use platform_engineering_lab.Orders.Shutdown.{
  destroy_publisher, destroy_cache, both, then_flush, shutdown_telemetry, shutdown_timeout_ms, stop,
}

-- The promise settles within so many milliseconds.
abbrev pub SettlesBy : ℕ → Pending (Unit {0}) → Type 0
SettlesBy ms never = ⊥
SettlesBy ms (fulfils t done) = t ≤ ms
SettlesBy ms (rejects t message) = t ≤ ms

-- So does the close, if there is a connection.
abbrev pub ClosesBy : ℕ → Option (Pending (Unit {0})) → Type 0
ClosesBy ms none = Unit
ClosesBy ms (some p) = SettlesBy ms p

-- The stop has ended by then.
abbrev pub EndsBy : ℕ → Option ℕ → Type 0
EndsBy ms none = ⊥
EndsBy ms (some t) = t ≤ ms

flush_bound : (sdk : Bool) (p : Pending (Unit {0})) → shutdown_telemetry sdk p ≤ 5000
unfolding shutdown_telemetry
flush_bound false p = omega arith
flush_bound true p = flush_time_bound shutdown_timeout_ms p

publisher_iff :
    (ms : ℕ) (close : Option (Pending (Unit {0})))
    → EndsBy ms (destroy_publisher close).at ↔ ClosesBy ms close
unfolding destroy_publisher
publisher_iff ms none = (λ h. tt, λ h. omega arith)
publisher_iff ms (some never) = (λ h. h, λ h. h)
publisher_iff ms (some (fulfils t done)) = (λ h. h, λ h. h)
publisher_iff ms (some (rejects t message)) = (λ h. h, λ h. h)

cache_iff :
    (ms : ℕ) (quit : Pending (Unit {0})) → EndsBy ms (destroy_cache quit).at ↔ SettlesBy ms quit
unfolding destroy_cache
cache_iff ms never = (λ h. h, λ h. h)
cache_iff ms (fulfils t done) = (λ h. h, λ h. h)
cache_iff ms (rejects t message) = (λ h. h, λ h. h)

both-EndsBy : (ms : ℕ) (t u : Option ℕ) → EndsBy ms (both t u) ↔ (EndsBy ms t × EndsBy ms u)
both-EndsBy ms none u = (λ h. absurd h, λ h. h.0)
both-EndsBy ms (some t) none = (λ h. absurd h, λ h. h.1)
both-EndsBy ms (some t) (some u) =
    (λ h. (omega (arith, h), omega (arith, h)), λ h. omega (arith, h))

then_flush-EndsBy : (ms f : ℕ) (t : Option ℕ) → EndsBy (ms + f) (then_flush f t) ↔ EndsBy ms t
then_flush-EndsBy ms f none = (λ h. h, λ h. h)
then_flush-EndsBy ms f (some t) = (λ h. omega (arith, h), λ h. omega (arith, h))

-- The stop of order-service ends within some time and the time of its flush exactly when the close of
-- the publisher's connection, if there is one, and the quit of Redis both settle within that time; the
-- flush takes 5000 ms at most. No timer bounds the close or the quit: where one of them is never
-- answered, the stop does not end, and the flush does not begin.
pub stop-EndsBy_iff :
    (close : Option (Pending (Unit {0}))) (quit : Pending (Unit {0})) (sdk : Bool)
    (flush : Pending (Unit {0})) (ms : ℕ)
    → (EndsBy (ms + shutdown_telemetry sdk flush) (stop close quit sdk flush)
        ↔ (ClosesBy ms close × SettlesBy ms quit))
      × (shutdown_telemetry sdk flush ≤ 5000)
unfolding stop
stop-EndsBy_iff close quit sdk flush ms =
    let t = (destroy_publisher close).at in
    let u = (destroy_cache quit).at in
    let flushed = then_flush-EndsBy ms (shutdown_telemetry sdk flush) (both t u) in
    let joined = both-EndsBy ms t u in
    let closed = publisher_iff ms close in
    let left = cache_iff ms quit in
    (
      (
        λ h. let (x, y) = joined.0 (flushed.0 h) in (closed.0 x, left.0 y),
        λ (x, y). flushed.1 (joined.1 (closed.1 x, left.1 y)),
      ),
      flush_bound sdk flush,
    )
