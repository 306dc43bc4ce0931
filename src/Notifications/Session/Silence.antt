-- ===== src/Notifications/Session/Silence.antt =====
-- Deliveries behind an acknowledged cancel.
use platform_engineering_lab.Prelude.{
  ℕ, ◌≤◌, ◌≡◌, refl, sym, subst, true, false, Option, none, some, arith,
}
use platform_engineering_lab.Notifications.Session.{
  serving, Consumer, loop_head, after_session, timed_out, connected, channel_created, prefetched,
  consuming, end_session, track, tracked_done, on_module_destroy, cancelled, drained,
  close_or_go_on, conn_closed, loop_awaited, connected_late, failed_late, gone, RunStep, starts,
  connects, cannot_connect, times_out, creates, fails_channel, prefetches, fails_prefetch, consumes,
  fails_consume, sees_closed, closes, wakes, OtherStep, delivery, handled, destroys, cancels,
  drains, closes_conn, awaits_loop, connects_late, fails_late, goes_away, by_run, beside, Steps,
  stays, goes,
}
use platform_engineering_lab.Notifications.Session.Stopping.{
  rank, run-rank, close_or_go_on-stopping, other-stopping,
}

-- The session has no consumer at the broker and gets none.
record Quiet (most : ℕ) (s : Consumer) : Type 0 where
  stopping : s.stopping ≡ true
  silent : s.delivers ≡ false
  late : rank s.phase ≤ 2
  in_flight : s.in_flight ≤ most

run-delivers :
    {s t : Consumer}
    → rank s.phase ≤ 2
    → s.delivers ≡ false
    → RunStep s t
    → (t.delivers ≡ false) × (t.in_flight ≡ s.in_flight)
unfolding loop_head after_session timed_out connected channel_created prefetched consuming
    end_session
run-delivers r q (starts e) = (q, refl)
run-delivers r q (connects c e) = (q, refl)
run-delivers r q (cannot_connect e) = (q, refl)
run-delivers r q (times_out e) = (q, refl)
run-delivers r q (creates c e) = (q, refl)
run-delivers r q (fails_channel c e) = (refl, refl)
run-delivers r q (prefetches c e) = (q, refl)
run-delivers r q (fails_prefetch c e) = (refl, refl)
run-delivers {s} r q (consumes c tag e) = absurd (ground (arith, subst (λ p. rank p ≤ 2) e r))
run-delivers r q (fails_consume c e) = (refl, refl)
run-delivers r q (sees_closed c e) = (refl, refl)
run-delivers r q (closes c e) = (q, refl)
run-delivers r q (wakes e) = (q, refl)

close_or_go_on-delivers :
    (o : Option ℕ) (s : Consumer) → s.delivers ≡ false → (close_or_go_on o s).delivers ≡ false
close_or_go_on-delivers none s q = q
close_or_go_on-delivers (some c) s q = refl

other-delivers :
    {s t : Consumer} (most : ℕ)
    → s.delivers ≡ false
    → s.in_flight ≤ most
    → OtherStep s t
    → (t.delivers ≡ false) × (t.in_flight ≤ most)
unfolding track tracked_done on_module_destroy cancelled drained conn_closed loop_awaited
    connected_late failed_late gone
other-delivers most q l (delivery d) = absurd (ground (arith, q, d))
other-delivers most q l handled = (q, omega (arith, l))
other-delivers most q l (destroys e) = (q, l)
other-delivers most q l (cancels acknowledged e) = (ground (arith, q), l)
other-delivers {s} most q l (drains e) =
    let (a, b, d) = close_or_go_on-stopping s.conn s in
    (close_or_go_on-delivers s.conn s q, subst (λ n. n ≤ most) (sym d) l)
other-delivers most q l (closes_conn e) = (q, l)
other-delivers most q l (awaits_loop e) = (q, l)
other-delivers most q l (connects_late c n e) = (q, l)
other-delivers most q l (fails_late n e) = (q, l)
other-delivers most q l (goes_away c) = (q, l)

steps-Quiet : {s t : Consumer} (most : ℕ) → Steps s t → Quiet most s → Quiet most t
steps-Quiet most (stays s) q = q
steps-Quiet most (goes s t u steps (by_run step)) q =
    let i = steps-Quiet most steps q in
    let (still, less) = run-rank i.stopping step in
    let (silent, same) = run-delivers i.late i.silent step in
    record {
      stopping = still;
      silent = silent;
      late = omega (arith, less, i.late);
      in_flight = subst (λ n. n ≤ most) (sym same) i.in_flight;
    }
steps-Quiet most (goes s t u steps (beside step)) q =
    let i = steps-Quiet most steps q in
    let (still, same) = other-stopping i.stopping step in
    let (silent, few) = other-delivers most i.silent i.in_flight step in
    record {
      stopping = still;
      silent = silent;
      late = subst (λ p. rank p ≤ 2) (sym same) i.late;
      in_flight = few;
    }

-- Where the shutdown finds a session that is being served and the broker acknowledges the cancel, no
-- message is delivered any more, whatever happens: the messages in flight only become fewer.
pub cancelled-quiet :
    (s t : Consumer) (c : ℕ)
    → s.stopping ≡ true
    → s.phase ≡ serving c
    → Steps (cancelled true s) t
    → (t.delivers ≡ false) × (t.in_flight ≤ s.in_flight)
unfolding cancelled
cancelled-quiet s t c h e steps =
    let q =
      steps-Quiet s.in_flight steps (record {
        stopping = h;
        silent = refl;
        late = ground (arith, e);
        in_flight = omega arith;
      }) in
    (q.silent, q.in_flight)
