-- ===== src/Notifications/Session/Laws.antt =====
-- What the fields of the consumer say about its session.
use platform_engineering_lab.Prelude.{
  ℕ, ◌≡◌, ◌⊎◌, inl, inr, refl, sym, ap, subst, ◌∙◌, String, true, false, List, [], ◌∷◌, Option,
  none, some, arith, Bool-cases,
}
use platform_engineering_lab.Notifications.Session.{
  Phase, not_started, connecting, waiting, left, opening, preparing, registering, serving, closing,
  Consumer, fresh, is_connected, loop_head, after_session, timed_out, connected, channel_created,
  prefetched, consuming, without, end_session, track, tracked_done, on_module_destroy, cancelled,
  close_or_go_on, drained, conn_closed, loop_awaited, connected_late, failed_late, gone, RunStep,
  starts, connects, cannot_connect, times_out, creates, fails_channel, prefetches, fails_prefetch,
  consumes, fails_consume, sees_closed, closes, wakes, OtherStep, delivery, handled, destroys,
  cancels, drains, closes_conn, awaits_loop, connects_late, fails_late, goes_away, by_run, beside,
  Steps, stays, goes, Reachable,
}

-- No session is being served, and `conns` are the connections that have not been asked to close.
abbrev pub Unserved : Consumer → List ℕ → Type 0
Unserved s conns =
    (s.conn ≡ none)
    × (s.channel ≡ none)
    × (s.consumer_tag ≡ none)
    × (s.delivers ≡ false)
    × (s.open_conns ≡ conns)

-- The fields name the connection, its channel and a consumer, and no other connection is
-- left without its close being asked for.
abbrev pub Served : Consumer → ℕ → Type 0
Served s c =
    (s.conn ≡ some c)
    × (s.channel ≡ some c)
    × ((tag : String) × (s.consumer_tag ≡ some tag))
    × ((s.open_conns ≡ c ∷ []) ⊎ (s.open_conns ≡ []))

-- What holds at a place of `run`.
abbrev pub Fits : Phase → Consumer → Type 0
Fits not_started s = Unserved s []
Fits connecting s = Unserved s []
Fits waiting s = Unserved s []
Fits left s = Unserved s []
Fits (opening c) s = Unserved s (c ∷ [])
Fits (preparing c) s = Unserved s (c ∷ [])
Fits (registering c) s = Unserved s (c ∷ [])
Fits (serving c) s = Served s c
Fits (closing c) s = Unserved s []

pub at : (s : Consumer) (p : Phase) → Fits s.phase s → s.phase ≡ p → Fits p s
at s p f e = subst (λ q. Fits q s) e f

loop_head-Fits : (s : Consumer) → Unserved s [] → Fits (loop_head s).phase (loop_head s)
unfolding loop_head
loop_head-Fits s u = elim (Bool-cases s.stopping) [ inl h ↦ rw h u | inr h ↦ rw h u ]

after_session-Fits : (s : Consumer) → Unserved s [] → Fits (after_session s).phase (after_session s)
unfolding after_session
after_session-Fits s u = elim (Bool-cases s.stopping) [ inl h ↦ rw h u | inr h ↦ rw h u ]

timed_out-Fits : (s : Consumer) → Unserved s [] → Fits (timed_out s).phase (timed_out s)
unfolding timed_out
timed_out-Fits s u = elim (Bool-cases s.stopping) [ inl h ↦ rw h u | inr h ↦ rw h u ]

without_only : (c : ℕ) → without c (c ∷ []) ≡ []
without_only c = ground arith

end_session-Fits :
    (s : Consumer) (c : ℕ)
    → (s.open_conns ≡ c ∷ []) ⊎ (s.open_conns ≡ [])
    → Fits (end_session c s).phase (end_session c s)
unfolding end_session
end_session-Fits s c (inl one) = (refl, refl, refl, refl, ap (without c) one ∙ without_only c)
end_session-Fits s c (inr nothing) = (refl, refl, refl, refl, ap (without c) nothing)

run-Fits : {s t : Consumer} → Fits s.phase s → RunStep s t → Fits t.phase t
unfolding connected channel_created prefetched consuming
run-Fits {s} f (starts e) = loop_head-Fits s (at s not_started f e)
run-Fits {s} f (connects c e) =
    let (a, b, d, q, o) = at s connecting f e in (a, b, d, q, ap (λ l. c ∷ l) o)
run-Fits {s} f (cannot_connect e) = after_session-Fits s (at s connecting f e)
run-Fits {s} f (times_out e) = timed_out-Fits s (at s connecting f e)
run-Fits {s} f (creates c e) = at s (opening c) f e
run-Fits {s} f (fails_channel c e) =
    let (a, b, d, q, o) = at s (opening c) f e in end_session-Fits s c (inl o)
run-Fits {s} f (prefetches c e) = at s (preparing c) f e
run-Fits {s} f (fails_prefetch c e) =
    let (a, b, d, q, o) = at s (preparing c) f e in end_session-Fits s c (inl o)
run-Fits {s} f (consumes c tag e) =
    let (a, b, d, q, o) = at s (registering c) f e in (refl, refl, (tag, refl), inl o)
run-Fits {s} f (fails_consume c e) =
    let (a, b, d, q, o) = at s (registering c) f e in end_session-Fits s c (inl o)
run-Fits {s} f (sees_closed c e) = let (a, b, d, o) = at s (serving c) f e in end_session-Fits s c o
run-Fits {s} f (closes c e) = after_session-Fits s (at s (closing c) f e)
run-Fits {s} f (wakes e) = loop_head-Fits s (at s waiting f e)

-- Fits reads these fields alone.
record Fields (s t : Consumer) : Type 0 where
  conn : s.conn ≡ t.conn
  channel : s.channel ≡ t.channel
  consumer_tag : s.consumer_tag ≡ t.consumer_tag
  open_conns :
      (s.open_conns ≡ t.open_conns)
      ⊎ ((c : ℕ) × (s.conn ≡ some c) × (t.open_conns ≡ without c s.open_conns))
  delivers : s.delivers ≡ false → t.delivers ≡ false

Unserved-Fields :
    {s t : Consumer} (conns : List ℕ) → Fields s t → Unserved s conns → Unserved t conns
Unserved-Fields conns same (a, b, d, q, o) = (
  sym same.conn ∙ a,
  sym same.channel ∙ b,
  sym same.consumer_tag ∙ d,
  same.delivers q,
  elim same.open_conns [ inl e ↦ sym e ∙ o | inr (c, e, w) ↦ absurd (cc) ],
)

Served-Fields : {s t : Consumer} (c : ℕ) → Fields s t → Served s c → Served t c
Served-Fields {s} {t} c same (a, b, (tag, d), o) = (
  sym same.conn ∙ a,
  sym same.channel ∙ b,
  (tag, sym same.consumer_tag ∙ d),
  elim same.open_conns [
    | inl e ↦ elim o [ inl one ↦ inl (sym e ∙ one) | inr nothing ↦ inr (sym e ∙ nothing) ]
    | inr (d, e, w) ↦
        let this : d ≡ c = ground (arith, e, a) in
        elim o [
          | inl one ↦
              inr (w ∙ ap (without d) one ∙ ap (λ x. without x (c ∷ [])) this ∙ without_only c)
          | inr nothing ↦ inr (w ∙ ap (without d) nothing)
        ]
  ],
)

Fields-Fits : {s t : Consumer} (p : Phase) → Fields s t → Fits p s → Fits p t
Fields-Fits not_started same f = Unserved-Fields [] same f
Fields-Fits connecting same f = Unserved-Fields [] same f
Fields-Fits waiting same f = Unserved-Fields [] same f
Fields-Fits left same f = Unserved-Fields [] same f
Fields-Fits (opening c) same f = Unserved-Fields (c ∷ []) same f
Fields-Fits (preparing c) same f = Unserved-Fields (c ∷ []) same f
Fields-Fits (registering c) same f = Unserved-Fields (c ∷ []) same f
Fields-Fits (serving c) same f = Served-Fields c same f
Fields-Fits (closing c) same f = Unserved-Fields [] same f

kept :
    (s t : Consumer)
    → s.conn ≡ t.conn
    → s.channel ≡ t.channel
    → s.consumer_tag ≡ t.consumer_tag
    → s.open_conns ≡ t.open_conns
    → s.delivers ≡ t.delivers
    → Fields s t
kept s t a b d o q = record {
  conn = a;
  channel = b;
  consumer_tag = d;
  open_conns = inl o;
  delivers = λ h. sym q ∙ h;
}

closing_fields : (s : Consumer) (c : ℕ) → s.conn ≡ some c → Fields s (close_or_go_on (some c) s)
closing_fields s c there = record {
  conn = refl;
  channel = refl;
  consumer_tag = refl;
  open_conns = inr (c, there, refl);
  delivers = λ h. refl;
}

drained-Fields :
    (o : Option ℕ) (s : Consumer)
    → s.conn ≡ o
    → Fields s (close_or_go_on o s) × ((close_or_go_on o s).phase ≡ s.phase)
drained-Fields none s absent = (kept s (close_or_go_on none s) refl refl refl refl refl, refl)
drained-Fields (some c) s there = (closing_fields s c there, refl)

other-Fields : {s t : Consumer} → OtherStep s t → Fields s t × (t.phase ≡ s.phase)
unfolding track tracked_done drained on_module_destroy cancelled conn_closed loop_awaited
    connected_late failed_late gone
other-Fields {s} (delivery d) = (kept s (track s) refl refl refl refl refl, refl)
other-Fields {s} handled = (kept s (tracked_done s) refl refl refl refl refl, refl)
other-Fields {s} (destroys e) = (kept s (on_module_destroy s) refl refl refl refl refl, refl)
other-Fields {s} (cancels acknowledged e) = (
  record {
    conn = refl;
    channel = refl;
    consumer_tag = refl;
    open_conns = inl refl;
    delivers = λ h. ground (arith, h);
  },
  refl,
)
other-Fields {s} (drains e) = drained-Fields s.conn s refl
other-Fields {s} (closes_conn e) = (kept s (conn_closed s) refl refl refl refl refl, refl)
other-Fields {s} (awaits_loop e) = (kept s (loop_awaited s) refl refl refl refl refl, refl)
other-Fields {s} (connects_late c n e) =
    (kept s (connected_late c s) refl refl refl refl refl, refl)
other-Fields {s} (fails_late n e) = (kept s (failed_late s) refl refl refl refl refl, refl)
other-Fields {s} (goes_away c) = (kept s (gone c s) refl refl refl refl refl, refl)

other-Fits : {s t : Consumer} → Fits s.phase s → OtherStep s t → Fits t.phase t
other-Fits {s} {t} f step =
    let (same, e) = other-Fields step in subst (λ p. Fits p t) (sym e) (Fields-Fits s.phase same f)

fresh-Fits : Fits fresh.phase fresh
fresh-Fits = (refl, refl, refl, refl, refl)

steps-Fits : {s t : Consumer} → Steps s t → Fits s.phase s → Fits t.phase t
steps-Fits (stays s) f = f
steps-Fits (goes s t u steps (by_run step)) f = run-Fits (steps-Fits steps f) step
steps-Fits (goes s t u steps (beside step)) f = other-Fits (steps-Fits steps f) step

-- In any interleaving of the consumer's sessions with deliveries and with the shutdown, the fields are
-- those of the session that is being served, and empty where none is; and no connection that
-- connectWithTimeout has returned is left without its close being asked for, but the one of the session
-- at hand, whichever of its steps has failed.
pub reachable-Fits : (s : Consumer) → Reachable s → Fits s.phase s
reachable-Fits s steps = steps-Fits steps fresh-Fits

no_channel : (s : Consumer) → s.channel ≡ none → is_connected s ≡ true → ⊥
unfolding is_connected
no_channel s none_there h = ground (arith, none_there, h)

connected-serving :
    (s : Consumer) (p : Phase)
    → Fits p s
    → is_connected s ≡ true
    → (c : ℕ) × (p ≡ serving c) × (s.conn ≡ some c)
connected-serving s not_started f h = absurd (no_channel s f.1 h)
connected-serving s connecting f h = absurd (no_channel s f.1 h)
connected-serving s waiting f h = absurd (no_channel s f.1 h)
connected-serving s left f h = absurd (no_channel s f.1 h)
connected-serving s (opening c) f h = absurd (no_channel s f.1 h)
connected-serving s (preparing c) f h = absurd (no_channel s f.1 h)
connected-serving s (registering c) f h = absurd (no_channel s f.1 h)
connected-serving s (serving c) f h = (c, refl, f.0)
connected-serving s (closing c) f h = absurd (no_channel s f.1 h)

-- The consumer reports ready only while it waits for the end of a session whose consumer has been
-- registered, and not once it is stopping.
pub is_connected-serving :
    (s : Consumer)
    → Reachable s
    → is_connected s ≡ true
    → ((c : ℕ) × (s.phase ≡ serving c) × (s.conn ≡ some c)) × (s.stopping ≡ false)
unfolding is_connected
is_connected-serving s r h = (connected-serving s s.phase (reachable-Fits s r) h, ground arith)
