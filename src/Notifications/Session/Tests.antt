-- ===== src/Notifications/Session/Tests.antt =====
-- A concrete session: connected, served, and stopped.
use platform_engineering_lab.Prelude.{◌≤◌, ◌≡◌, ◌⊎◌, refl, true, false}
use platform_engineering_lab.Notifications.Session.{
  left, Consumer, finished, fresh, is_connected, loop_head, connected, channel_created, prefetched,
  consuming, end_session, track, on_module_destroy, cancelled, RunStep, starts, connects, creates,
  prefetches, consumes, delivery, sees_closed, by_run, beside, Steps, stays, goes, Reachable,
}
use platform_engineering_lab.Notifications.Session.Laws.{Fits, reachable-Fits}
use platform_engineering_lab.Notifications.Session.Stopping.{run_steps, stopping-ends}
use platform_engineering_lab.Notifications.Session.Silence.{cancelled-quiet}
use platform_engineering_lab.Notifications.Session.Late.{connecting-consumes_late}

-- The loop has started, and asks for a connection.
abbrev trying : Consumer
trying = loop_head fresh

abbrev serving_one : Consumer
serving_one = track (consuming 7 "ctag" (prefetched 7 (channel_created 7 (connected 7 trying))))

running : Unit {0}
unfolding loop_head connected channel_created prefetched consuming track is_connected
    on_module_destroy cancelled end_session
running = tt

trying-Reachable : Reachable trying
unfolding running
trying-Reachable = goes fresh fresh trying (stays fresh) (by_run (starts refl))

serving_one-Reachable : Reachable serving_one
unfolding running
serving_one-Reachable =
    let s₁ = connected 7 trying in
    let s₂ = channel_created 7 s₁ in
    let s₃ = prefetched 7 s₂ in
    let s₄ = consuming 7 "ctag" s₃ in
    let steps₁ = goes fresh trying s₁ trying-Reachable (by_run (connects 7 refl)) in
    let steps₂ = goes fresh s₁ s₂ steps₁ (by_run (creates 7 refl)) in
    let steps₃ = goes fresh s₂ s₃ steps₂ (by_run (prefetches 7 refl)) in
    let steps₄ = goes fresh s₃ s₄ steps₃ (by_run (consumes 7 "ctag" refl)) in
    goes fresh s₄ serving_one steps₄ (beside (delivery refl))

reachable-Fits_example : Fits serving_one.phase serving_one
reachable-Fits_example = reachable-Fits serving_one serving_one-Reachable

abbrev stopped : Consumer
stopped = on_module_destroy serving_one

closed-Steps : Steps stopped (end_session 7 stopped)
unfolding running
closed-Steps =
    goes stopped stopped (end_session 7 stopped) (stays stopped) (by_run (sees_closed 7 refl))

stopping-ends_example :
    (run_steps closed-Steps ≤ 6)
    × (((end_session 7 stopped).phase ≡ left)
        ⊎ ((u : Consumer) × RunStep (end_session 7 stopped) u))
unfolding running
stopping-ends_example = stopping-ends stopped (end_session 7 stopped) refl closed-Steps

cancelled-quiet_example :
    ((end_session 7 (cancelled true stopped)).delivers ≡ false)
    × ((end_session 7 (cancelled true stopped)).in_flight ≤ stopped.in_flight)
unfolding running
cancelled-quiet_example =
    cancelled-quiet stopped (end_session 7 (cancelled true stopped)) 7 refl refl (
      goes (cancelled true stopped) (cancelled true stopped)
        (end_session 7 (cancelled true stopped)) (stays (cancelled true stopped))
        (by_run (sees_closed 7 refl)))

connecting-consumes_late_example :
    (t : Consumer) × Steps trying t
    × (t.shutdown ≡ finished)
    × (t.stopping ≡ true)
    × (t.delivers ≡ true)
    × (t.in_flight ≡ 1)
unfolding running
connecting-consumes_late_example = connecting-consumes_late trying trying-Reachable refl refl
