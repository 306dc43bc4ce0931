-- ===== src/Notifications/Session.antt =====
-- consumer.service.ts: `run` and consumeUntilClosed as the steps between two awaits, beside
-- onModuleDestroy and the deliveries, in any interleaving. amqplib and RabbitMQ are the events of Step;
-- a connection and its channel have one number. How long the steps of onModuleDestroy take is
-- Notifications.Shutdown.
pub mod Laws
pub mod Stopping
pub mod Silence
pub mod Late
mod Tests
use platform_engineering_lab.Prelude.{
  ℕ, suc, ◌-◌, ◌≡◌, String, Bool, true, false, not, ◌&&◌, List, [], ◌∷◌, Option, none, some, eqb,
  any, if◌then◌else◌,
}

-- Where `run` stands: before its start, at one of the awaits of a session, at the wait between two
-- sessions, or at its end.
pub data Phase : Type 0 where
  not_started connecting waiting left : Phase
  -- conn.createConfirmChannel, ch.prefetch, ch.consume, `closed`, and conn.close in `finally`
  opening preparing registering serving closing : ℕ → Phase

-- Where onModuleDestroy stands.
pub data Shutdown : Type 0 where
  not_asked cancelling draining closing_conn awaiting_loop finished : Shutdown

-- The fields of the service; `delivers` says that the broker has a consumer to deliver to. open_conns
-- are the connections that connectWithTimeout has returned and whose close has not been asked for;
-- closing_conns those whose close has been asked for, which may still be open, since withTimeout goes
-- on without it; late_attempts the attempts of `connect` that have outlived their timer.
pub record Consumer : Type 0 where
  pub conn : Option ℕ
  pub channel : Option ℕ
  pub consumer_tag : Option String
  pub stopping : Bool
  pub in_flight : ℕ
  pub phase : Phase
  pub shutdown : Shutdown
  pub delivers : Bool
  pub open_conns : List ℕ
  pub closing_conns : List ℕ
  pub late_attempts : ℕ

abbrev pub fresh : Consumer
fresh = record {
  conn = none;
  channel = none;
  consumer_tag = none;
  stopping = false;
  in_flight = 0;
  phase = not_started;
  shutdown = not_asked;
  delivers = false;
  open_conns = [];
  closing_conns = [];
  late_attempts = 0;
}

abbrev pub is_some {ℓ} : {A : Type ℓ} → Option A → Bool
is_some none = false
is_some (some a) = true

unfoldable pub is_connected : Consumer → Bool
is_connected s = is_some s.channel && not s.stopping

-- while (!this.stopping)
unfoldable pub loop_head : Consumer → Consumer
loop_head s = record s { phase = if s.stopping then left else connecting }

-- Behind the session in `run`, ended or failed.
unfoldable pub after_session : Consumer → Consumer
after_session s = record s { phase = if s.stopping then left else waiting }

-- The timer of connectWithTimeout has fired before the attempt has settled.
unfoldable pub timed_out : Consumer → Consumer
timed_out s = record s {
  phase = if s.stopping then left else waiting;
  late_attempts = suc s.late_attempts;
}

-- connectWithTimeout has a connection.
unfoldable pub connected : ℕ → Consumer → Consumer
connected c s = record s { phase = opening c; open_conns = c ∷ s.open_conns }

unfoldable pub channel_created : ℕ → Consumer → Consumer
channel_created c s = record s { phase = preparing c }

unfoldable pub prefetched : ℕ → Consumer → Consumer
prefetched c s = record s { phase = registering c }

-- ch.consume has a tag.
unfoldable pub consuming : ℕ → String → Consumer → Consumer
consuming c tag s = record s {
  conn = some c;
  channel = some c;
  consumer_tag = some tag;
  phase = serving c;
  delivers = true;
}

abbrev pub without : ℕ → List ℕ → List ℕ
without c [] = []
without c (d ∷ ds) = let rest = without c ds in if eqb d c then rest else d ∷ rest

-- conn.close() on a connection that is open.
abbrev pub ask_close : ℕ → List ℕ → List ℕ → List ℕ
ask_close c conns closing_ones = if any (λ d. eqb d c) conns then c ∷ closing_ones else closing_ones

-- `finally`, up to its await; a connection that closes delivers no more.
unfoldable pub end_session : ℕ → Consumer → Consumer
end_session c s = record s {
  conn = none;
  channel = none;
  consumer_tag = none;
  phase = closing c;
  delivers = false;
  open_conns = without c s.open_conns;
  closing_conns = ask_close c s.open_conns s.closing_conns;
}

-- track, and the end of the work that it tracks
unfoldable pub track : Consumer → Consumer
track s = record s { in_flight = suc s.in_flight }

unfoldable pub tracked_done : Consumer → Consumer
tracked_done s = record s { in_flight = s.in_flight - 1 }

-- onModuleDestroy up to its first await: a cancel only where a session is being served.
unfoldable pub on_module_destroy : Consumer → Consumer
on_module_destroy s = record s {
  stopping = true;
  shutdown = if is_some s.channel && is_some s.consumer_tag then cancelling else draining;
}

-- The cancel is answered, or its time is over.
unfoldable pub cancelled : Bool → Consumer → Consumer
cancelled acknowledged s = record s {
  delivers = if acknowledged then false else s.delivers;
  shutdown = draining;
}

abbrev pub close_or_go_on : Option ℕ → Consumer → Consumer
close_or_go_on none s = record s { shutdown = awaiting_loop }
close_or_go_on (some c) s = record s {
  shutdown = closing_conn;
  delivers = false;
  open_conns = without c s.open_conns;
  closing_conns = ask_close c s.open_conns s.closing_conns;
}

-- Behind the wait for the messages in flight.
unfoldable pub drained : Consumer → Consumer
drained s = close_or_go_on s.conn s

unfoldable pub conn_closed : Consumer → Consumer
conn_closed s = record s { shutdown = awaiting_loop }

unfoldable pub loop_awaited : Consumer → Consumer
loop_awaited s = record s { shutdown = finished }

-- A late attempt has a connection after all, which is closed at once; or it fails.
unfoldable pub connected_late : ℕ → Consumer → Consumer
connected_late c s = record s {
  closing_conns = c ∷ s.closing_conns;
  late_attempts = s.late_attempts - 1;
}

unfoldable pub failed_late : Consumer → Consumer
failed_late s = record s { late_attempts = s.late_attempts - 1 }

-- A connection that was asked to close is closed.
unfoldable pub gone : ℕ → Consumer → Consumer
gone c s = record s { closing_conns = without c s.closing_conns }

-- The next step of `run`.
pub data RunStep (s : Consumer) : Consumer → Type 0 where
  starts : s.phase ≡ not_started → RunStep s (loop_head s)
  connects : (c : ℕ) → s.phase ≡ connecting → RunStep s (connected c s)
  cannot_connect : s.phase ≡ connecting → RunStep s (after_session s)
  times_out : s.phase ≡ connecting → RunStep s (timed_out s)
  creates : (c : ℕ) → s.phase ≡ opening c → RunStep s (channel_created c s)
  fails_channel : (c : ℕ) → s.phase ≡ opening c → RunStep s (end_session c s)
  prefetches : (c : ℕ) → s.phase ≡ preparing c → RunStep s (prefetched c s)
  fails_prefetch : (c : ℕ) → s.phase ≡ preparing c → RunStep s (end_session c s)
  consumes : (c : ℕ) (tag : String) → s.phase ≡ registering c → RunStep s (consuming c tag s)
  fails_consume : (c : ℕ) → s.phase ≡ registering c → RunStep s (end_session c s)
  sees_closed : (c : ℕ) → s.phase ≡ serving c → RunStep s (end_session c s)
  closes : (c : ℕ) → s.phase ≡ closing c → RunStep s (after_session s)
  wakes : s.phase ≡ waiting → RunStep s (loop_head s)

-- What happens beside it.
pub data OtherStep (s : Consumer) : Consumer → Type 0 where
  delivery : s.delivers ≡ true → OtherStep s (track s)
  handled : OtherStep s (tracked_done s)
  destroys : s.shutdown ≡ not_asked → OtherStep s (on_module_destroy s)
  cancels : (acknowledged : Bool) → s.shutdown ≡ cancelling → OtherStep s (cancelled acknowledged s)
  drains : s.shutdown ≡ draining → OtherStep s (drained s)
  closes_conn : s.shutdown ≡ closing_conn → OtherStep s (conn_closed s)
  awaits_loop : s.shutdown ≡ awaiting_loop → OtherStep s (loop_awaited s)
  connects_late : (c n : ℕ) → s.late_attempts ≡ suc n → OtherStep s (connected_late c s)
  fails_late : (n : ℕ) → s.late_attempts ≡ suc n → OtherStep s (failed_late s)
  goes_away : (c : ℕ) → OtherStep s (gone c s)

pub data Step (s t : Consumer) : Type 0 where
  by_run : RunStep s t → Step s t
  beside : OtherStep s t → Step s t

pub data Steps : Consumer → Consumer → Type 0 where
  stays : (s : Consumer) → Steps s s
  goes : (s t u : Consumer) → Steps s t → Step t u → Steps s u

abbrev pub Reachable : Consumer → Type 0
Reachable s = Steps fresh s
