-- ===== src/Notifications/Session/Stopping.antt =====
-- The consumer's sessions once the service stops.
use platform_engineering_lab.Prelude.{
  ℕ, suc, ◌+◌, ◌≤◌, ◌≡◌, ◌⊎◌, inl, inr, refl, ◌∙◌, true, Option, none, some, arith,
}
use platform_engineering_lab.Notifications.Session.{
  Phase, not_started, connecting, waiting, left, opening, preparing, registering, serving, closing,
  Consumer, loop_head, after_session, timed_out, connected, channel_created, prefetched, consuming,
  end_session, track, tracked_done, on_module_destroy, cancelled, drained, close_or_go_on,
  conn_closed, loop_awaited, connected_late, failed_late, gone, RunStep, starts, connects,
  cannot_connect, times_out, creates, fails_channel, prefetches, fails_prefetch, consumes,
  fails_consume, sees_closed, closes, wakes, OtherStep, delivery, handled, destroys, cancels,
  drains, closes_conn, awaits_loop, connects_late, fails_late, goes_away, by_run, beside, Steps,
  stays, goes,
}

-- How many steps of `run` are left at most, once the service stops.
abbrev pub rank : Phase → ℕ
rank not_started = 1
rank connecting = 6
rank (opening c) = 5
rank (preparing c) = 4
rank (registering c) = 3
rank (serving c) = 2
rank (closing c) = 1
rank waiting = 1
rank left = 0

abbrev pub run_steps : {s t : Consumer} → Steps s t → ℕ
run_steps (stays s) = 0
run_steps (goes s t u steps (by_run step)) = suc (run_steps steps)
run_steps (goes s t u steps (beside step)) = run_steps steps

pub run-rank :
    {s t : Consumer}
    → s.stopping ≡ true
    → RunStep s t
    → (t.stopping ≡ true) × (suc (rank t.phase) ≤ rank s.phase)
unfolding loop_head after_session timed_out connected channel_created prefetched consuming
    end_session
run-rank h (starts e) = (h, ground (arith, h, e))
run-rank h (connects c e) = (h, ground (arith, e))
run-rank h (cannot_connect e) = (h, ground (arith, h, e))
run-rank h (times_out e) = (h, ground (arith, h, e))
run-rank h (creates c e) = (h, ground (arith, e))
run-rank h (fails_channel c e) = (h, ground (arith, e))
run-rank h (prefetches c e) = (h, ground (arith, e))
run-rank h (fails_prefetch c e) = (h, ground (arith, e))
run-rank h (consumes c tag e) = (h, ground (arith, e))
run-rank h (fails_consume c e) = (h, ground (arith, e))
run-rank h (sees_closed c e) = (h, ground (arith, e))
run-rank h (closes c e) = (h, ground (arith, h, e))
run-rank h (wakes e) = (h, ground (arith, h, e))

pub close_or_go_on-stopping :
    (o : Option ℕ) (s : Consumer)
    → ((close_or_go_on o s).stopping ≡ s.stopping)
      × ((close_or_go_on o s).phase ≡ s.phase)
      × ((close_or_go_on o s).in_flight ≡ s.in_flight)
close_or_go_on-stopping none s = (refl, refl, refl)
close_or_go_on-stopping (some c) s = (refl, refl, refl)

pub other-stopping :
    {s t : Consumer} → s.stopping ≡ true → OtherStep s t → (t.stopping ≡ true) × (t.phase ≡ s.phase)
unfolding track tracked_done on_module_destroy cancelled drained conn_closed loop_awaited
    connected_late failed_late gone
other-stopping h (delivery d) = (h, refl)
other-stopping h handled = (h, refl)
other-stopping h (destroys e) = (refl, refl)
other-stopping h (cancels acknowledged e) = (h, refl)
other-stopping {s} h (drains e) = let (a, b, d) = close_or_go_on-stopping s.conn s in (a ∙ h, b)
other-stopping h (closes_conn e) = (h, refl)
other-stopping h (awaits_loop e) = (h, refl)
other-stopping h (connects_late c n e) = (h, refl)
other-stopping h (fails_late n e) = (h, refl)
other-stopping h (goes_away c) = (h, refl)

steps-rank :
    {s t : Consumer} (steps : Steps s t)
    → s.stopping ≡ true
    → (t.stopping ≡ true) × (run_steps steps + rank t.phase ≤ rank s.phase)
steps-rank (stays s) h = (h, omega arith)
steps-rank (goes s t u steps (by_run step)) h =
    let (going, bound) = steps-rank steps h in
    let (still, less) = run-rank going step in (still, omega (arith, bound, less))
steps-rank (goes s t u steps (beside step)) h =
    let (going, bound) = steps-rank steps h in
    let (still, same) = other-stopping going step in (still, ground (arith, bound, same))

-- Whichever place it stands at, `run` has a next step, until it has ended.
next_step : (s : Consumer) (p : Phase) → s.phase ≡ p → (p ≡ left) ⊎ ((t : Consumer) × RunStep s t)
next_step s not_started e = inr (loop_head s, starts e)
next_step s connecting e = inr (after_session s, cannot_connect e)
next_step s (opening c) e = inr (channel_created c s, creates c e)
next_step s (preparing c) e = inr (prefetched c s, prefetches c e)
next_step s (registering c) e = inr (end_session c s, fails_consume c e)
next_step s (serving c) e = inr (end_session c s, sees_closed c e)
next_step s (closing c) e = inr (after_session s, closes c e)
next_step s waiting e = inr (loop_head s, wakes e)
next_step s left e = inl refl

rank_bound : (p : Phase) → rank p ≤ 6
rank_bound not_started = omega arith
rank_bound connecting = omega arith
rank_bound (opening c) = omega arith
rank_bound (preparing c) = omega arith
rank_bound (registering c) = omega arith
rank_bound (serving c) = omega arith
rank_bound (closing c) = omega arith
rank_bound waiting = omega arith
rank_bound left = omega arith

-- Once the service stops, `run` takes at most six more steps, whatever happens beside it, and each
-- time that it has not ended it has a next one: it ends the session at hand and starts no other.
pub stopping-ends :
    (s t : Consumer)
    → s.stopping ≡ true
    → (steps : Steps s t)
    → (run_steps steps ≤ 6) × ((t.phase ≡ left) ⊎ ((u : Consumer) × RunStep t u))
stopping-ends s t h steps =
    let (going, bound) = steps-rank steps h in
    (omega (arith, bound, rank_bound s.phase), next_step t t.phase refl)
