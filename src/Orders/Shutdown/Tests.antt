-- ===== src/Orders/Shutdown/Tests.antt =====
-- A broker that does not answer the close.
use platform_engineering_lab.Prelude.{◌+◌, ◌≤◌, ◌≡◌, ◌↔◌, refl, true, none, some}
use platform_engineering_lab.Timing.{never, fulfils, rejects}
use platform_engineering_lab.Telemetry.{flush_time}
use platform_engineering_lab.Orders.Shutdown.{
  destroy_publisher, destroy_cache, shutdown_telemetry, stop,
}
use platform_engineering_lab.Orders.Shutdown.Laws.{ClosesBy, SettlesBy, EndsBy, stop-EndsBy_iff}

hangs : stop (some never) (fulfils 3 tt) true (fulfils 40 tt) ≡ none
unfolding stop destroy_publisher destroy_cache
hangs = refl

ends : stop (some (rejects 7 "closed")) (fulfils 3 tt) true (fulfils 40 tt) ≡ some 47
unfolding stop destroy_publisher destroy_cache shutdown_telemetry flush_time
ends = refl

stop-EndsBy_iff_example :
    (EndsBy
        (10 + shutdown_telemetry true (fulfils 40 tt))
        (stop (some (rejects 7 "closed")) (fulfils 3 tt) true (fulfils 40 tt))
      ↔ (ClosesBy 10 (some (rejects 7 "closed")) × SettlesBy 10 (fulfils 3 tt)))
    × (shutdown_telemetry true (fulfils 40 tt) ≤ 5000)
stop-EndsBy_iff_example =
    stop-EndsBy_iff (some (rejects 7 "closed")) (fulfils 3 tt) true (fulfils 40 tt) 10
