-- ===== src/Telemetry/Laws.antt =====
-- The bound of the flush.
use platform_engineering_lab.Prelude.{ℕ, ◌≤◌, Bool, true, false, arith}
use platform_engineering_lab.Timing.{Pending, never, fulfils, rejects}
use platform_engineering_lab.Telemetry.{flush_time, shutdown_timeout_ms, shutdown_telemetry}

pub flush_time_bound : (limit : ℕ) (p : Pending (Unit {0})) → flush_time limit p ≤ limit
unfolding flush_time
flush_time_bound limit never = omega arith
flush_time_bound limit (fulfils t done) = ground arith
flush_time_bound limit (rejects t message) = ground arith

pub shutdown_telemetry_bound :
    (sdk : Bool) (p : Pending (Unit {0})) → shutdown_telemetry sdk p ≤ shutdown_timeout_ms
unfolding shutdown_telemetry
shutdown_telemetry_bound false p = omega arith
shutdown_telemetry_bound true p = flush_time_bound shutdown_timeout_ms p
