-- ===== src/Orders/Publisher.antt =====
-- infra/event-publisher.service.ts: the channel that the publications share, and one publication.
-- amqplib and RabbitMQ are the events of Step. A connection and its channel have one number.
pub mod Laws
pub mod Message
mod Tests
use platform_engineering_lab.Prelude.{
  ℕ, suc, zero, ◌-◌, ◌≡◌, ◌≢◌, String, Bool, true, false, List, [], ◌∷◌, Option, none, some, Result,
  ok, throw, eqb, if◌then◌else◌,
}
use platform_engineering_lab.Orders.Types.{DomainEvent}

-- `conn`, `channel` and whether `opening` is set; beside them how many calls of `open` run, and which
-- connections are up.
pub record Publisher : Type 0 where
  pub conn : Option ℕ
  pub channel : Option ℕ
  pub opening : Bool
  pub running : ℕ
  pub up : List ℕ

-- What getChannel returns: the channel, or the promise of the opening that runs.
pub data Channel : Type 0 where
  ready : ℕ → Channel
  promised : Channel

abbrev pub opened_if : Bool → Publisher → Publisher
opened_if true s = s
opened_if false s = record s { opening = true; running = suc s.running }

abbrev pub from_channel : Option ℕ → Publisher → Channel × Publisher
from_channel (some c) s = (ready c, s)
from_channel none s = (promised, opened_if s.opening s)

unfoldable pub get_channel : Publisher → Channel × Publisher
get_channel s = from_channel s.channel s

-- `open` has its confirm channel; `opening` is cleared behind it.
unfoldable pub opened : ℕ → Publisher → Publisher
opened c s = record s {
  conn = some c;
  channel = some c;
  opening = false;
  running = s.running - 1;
  up = c ∷ s.up;
}

-- `open` throws: there is no connection, or it is closed again.
unfoldable pub open_failed : Publisher → Publisher
open_failed s = record s { opening = false; running = s.running - 1 }

abbrev pub cleared : ℕ → Option ℕ → Option ℕ
cleared c none = none
cleared c (some d) = if eqb d c then none else some d

-- channel.on('close')
unfoldable pub channel_closed : ℕ → Publisher → Publisher
channel_closed c s = record s { channel = cleared c s.channel }

abbrev pub without : ℕ → List ℕ → List ℕ
without c [] = []
without c (d ∷ ds) = let rest = without c ds in if eqb d c then rest else d ∷ rest

-- conn.on('close')
unfoldable pub conn_closed : ℕ → Publisher → Publisher
conn_closed c s = record s { conn = none; channel = none; up = without c s.up }

abbrev pub closed_by : Option ℕ → Publisher → Publisher
closed_by none s = s
closed_by (some c) s = record s { up = without c s.up }

-- onModuleDestroy, where the close succeeds.
unfoldable pub on_module_destroy : Publisher → Publisher
on_module_destroy s = closed_by s.conn s

abbrev pub idle : Publisher
idle = record { conn = none; channel = none; opening = false; running = 0; up = [] }

-- What may happen next.
pub data Step : Publisher → Publisher → Type 0 where
  asks : (s : Publisher) → Step s (get_channel s).1
  opens : (s : Publisher) (c n : ℕ) → s.running ≡ suc n → Step s (opened c s)
  fails : (s : Publisher) (n : ℕ) → s.running ≡ suc n → Step s (open_failed s)
  loses_channel : (s : Publisher) (c : ℕ) → Step s (channel_closed c s)
  loses_conn : (s : Publisher) (c : ℕ) → Step s (conn_closed c s)

pub data Reachable : Publisher → Type 0 where
  at_start : Reachable idle
  after : {s t : Publisher} → Reachable s → Step s t → Reachable t

-- The answer to a publication before the timer fires.
pub data Confirm : Type 0 where
  confirmed time_out : Confirm
  refused : (message : String) → Confirm

abbrev pub confirm_result : Confirm → Result String (Unit {0})
confirm_result confirmed = ok tt
confirm_result time_out = throw "publish confirm timed out"
confirm_result (refused message) = throw message

-- publish, from what getChannel comes to and the answer of the broker on that channel.
unfoldable pub publish : Result String ℕ → (ℕ → Confirm) → Result String (Unit {0})
publish (ok channel) answer = confirm_result (answer channel)
publish (throw message) answer = throw message
