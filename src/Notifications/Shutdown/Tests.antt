-- ===== src/Notifications/Shutdown/Tests.antt =====
-- A shutdown in which the broker answers late.
use platform_engineering_lab.Prelude.{◌≡◌, refl, List, [], ◌∷◌, some}
use platform_engineering_lab.Timing.{with_timeout, never, fulfils, rejects}
use platform_engineering_lab.Notifications.Shutdown.{
  Surroundings, on_module_destroy, await_if, drain_time, at_signal, close_failed, Warning,
}

abbrev slow : Surroundings
slow = record {
  cancel = some never;
  in_flight = some 300 ∷ some 1200 ∷ [];
  close = some (rejects 10 "already closed");
  loop = some (fulfils 5 tt);
}

stopping : Unit {0}
unfolding on_module_destroy await_if with_timeout drain_time
stopping = tt

slow-time : (on_module_destroy slow at_signal).1.now ≡ 2215
unfolding stopping
slow-time = refl

abbrev one_failed : List Warning
one_failed = close_failed "already closed" ∷ []

slow-warnings : (on_module_destroy slow at_signal).1.warnings ≡ one_failed
unfolding stopping
slow-warnings = refl
