-- ===== src/Notifications/Session/Late.antt =====
-- A shutdown that comes before the consumer has its connection.
use platform_engineering_lab.Prelude.{ℕ, suc, ◌≡◌, refl, ap, ◌∙◌, String, true, none, arith}
use platform_engineering_lab.Notifications.Session.{
  connecting, Consumer, not_asked, finished, connected, channel_created, prefetched, consuming,
  track, on_module_destroy, drained, close_or_go_on, loop_awaited, connects, creates, prefetches,
  consumes, delivery, destroys, drains, awaits_loop, by_run, beside, Steps, stays, goes, Reachable,
}
use platform_engineering_lab.Notifications.Session.Laws.{reachable-Fits, at}
use platform_engineering_lab.Notifications.Session.Stopping.{close_or_go_on-stopping}

-- onModuleDestroy, whose time for the messages in flight and for the loop is over
abbrev destroyed : Consumer → Consumer
destroyed s = loop_awaited (drained (on_module_destroy s))

-- A session is opened, and one message is delivered.
abbrev served : ℕ → String → Consumer → Consumer
served c tag s = track (consuming c tag (prefetched c (channel_created c (connected c s))))

destroys-Steps :
    (s : Consumer)
    → s.shutdown ≡ not_asked
    → s.conn ≡ none
    → s.channel ≡ none
    → Steps s (destroyed s)
unfolding on_module_destroy drained
destroys-Steps s asked absent silent =
    let asks = goes s s (on_module_destroy s) (stays s) (beside (destroys asked)) in
    let drain =
      goes s (on_module_destroy s) (drained (on_module_destroy s)) asks
        (beside (drains (ground (arith, silent)))) in
    goes s (drained (on_module_destroy s)) (destroyed s) drain
      (beside (awaits_loop (ap (λ o. (close_or_go_on o (on_module_destroy s)).shutdown) absent)))

serves-Steps :
    (s : Consumer) (c : ℕ) (tag : String) → s.phase ≡ connecting → Steps s (served c tag s)
unfolding connected channel_created prefetched consuming
serves-Steps s c tag e =
    let s₁ = connected c s in
    let s₂ = channel_created c s₁ in
    let s₃ = prefetched c s₂ in
    let s₄ = consuming c tag s₃ in
    let steps₁ = goes s s s₁ (stays s) (by_run (connects c e)) in
    let steps₂ = goes s s₁ s₂ steps₁ (by_run (creates c refl)) in
    let steps₃ = goes s s₂ s₃ steps₂ (by_run (prefetches c refl)) in
    let steps₄ = goes s s₃ s₄ steps₃ (by_run (consumes c tag refl)) in
    goes s s₄ (track s₄) steps₄ (beside (delivery refl))

chain : {s t u : Consumer} → Steps s t → Steps t u → Steps s u
chain first (stays t) = first
chain first (goes t v u steps step) = goes _ v u (chain first steps) step

destroyed-fields :
    (s : Consumer)
    → s.conn ≡ none
    → ((destroyed s).phase ≡ s.phase)
      × ((destroyed s).stopping ≡ true)
      × ((destroyed s).in_flight ≡ s.in_flight)
unfolding loop_awaited drained on_module_destroy
destroyed-fields s absent =
    let (a, b, d) = close_or_go_on-stopping s.conn (on_module_destroy s) in (b, a, d)

-- Where the shutdown comes while the consumer connects, it finds nothing to cancel or to close: the
-- session goes on behind it, and a message may be delivered after onModuleDestroy has returned.
pub connecting-consumes_late :
    (s : Consumer)
    → Reachable s
    → s.phase ≡ connecting
    → s.shutdown ≡ not_asked
    → (t : Consumer) × Steps s t
      × (t.shutdown ≡ finished)
      × (t.stopping ≡ true)
      × (t.delivers ≡ true)
      × (t.in_flight ≡ suc s.in_flight)
unfolding track consuming prefetched channel_created connected loop_awaited
connecting-consumes_late s r e asked =
    let f = at s connecting (reachable-Fits s r) e in
    let (same, stops, as_many) = destroyed-fields s f.0 in
    (
      served 1 "ctag" (destroyed s),
      chain (destroys-Steps s asked f.0 f.1) (serves-Steps (destroyed s) 1 "ctag" (same ∙ e)),
      refl,
      stops,
      refl,
      ap (λ n. suc n) as_many,
    )
