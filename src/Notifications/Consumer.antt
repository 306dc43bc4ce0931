-- ===== src/Notifications/Consumer.antt =====
-- consumer.service.ts: handleMessage, handleFailure and deadLetter. An `await` on the database or on
-- the broker takes its answer from the table and the channel; the actions record, oldest first,
-- what the channel accepted and the counter's increments. Log lines and the histogram of
-- processing times are left out.
pub mod Settling
pub mod Branches
pub mod Redelivery
pub mod Retries
pub mod Idempotence
pub mod Samples
mod Tests
use platform_engineering_lab.Prelude.{
  ℕ, ◌+◌, String, Bool, List, [], ◌∷◌, ◌++◌, Option, true, false, if◌then◌else◌, leb, Result, ok,
  throw,
}
use platform_engineering_lab.Effects.{Act, ◌>>=◌, ◌>>◌, pure, raise, catch}
use platform_engineering_lab.Js.Json.{Json}
use platform_engineering_lab.Notifications.Event.{
  PermanentError, OrderCreatedEvent, parse_order_created,
}
use platform_engineering_lab.Notifications.Table.{NotificationTable, record_event}
use platform_engineering_lab.Notifications.Broker.{
  Cause, permanent, other, Reason, permanent_failure, gave_up, Delivery, failed_attempts,
  dead_letter_of, Outcome, processed, duplicate, retried, dead_lettered, dead_letter_failed, Action,
  publish, confirmed, ack, nack, count, Confirm, confirm, refuse, time_out, Channel,
}

-- The state that a delivery's handler works on; `calls` numbers the calls on the channel.
pub record Session (Db : Type 0) : Type 0 where
  pub db : Db
  pub calls : ℕ
  pub actions : List Action

abbrev pub Handling : Type 0 → Type 0 → Type 0
Handling Db A = Act Cause (Session Db) A

module _ {Db : Type 0} where
  -- The session at the start of a delivery.
  abbrev pub start : Db → Session Db
  start db = record { db = db; calls = 0; actions = [] }

  abbrev pub emit : Action → Handling Db (Unit {0})
  emit a s = (ok tt, record s { actions = s.actions ++ a ∷ [] })

  abbrev pub lift_parse : Result PermanentError OrderCreatedEvent → Handling Db OrderCreatedEvent
  lift_parse (ok e) = pure e
  lift_parse (throw e) = raise (permanent e)

  abbrev pub lift_record : Result String Bool → Handling Db Bool
  lift_record (ok b) = pure b
  lift_record (throw m) = raise (other m)

  -- A call on the channel throws where the channel is closed.
  abbrev pub call_if : Bool → Action → Handling Db (Unit {0})
  call_if true a s = (ok tt, record s { calls = s.calls + 1; actions = s.actions ++ a ∷ [] })
  call_if false a s = (throw (other "Channel closed"), record s { calls = s.calls + 1 })

  module _ (ch : Channel) where
    abbrev pub call : Action → Handling Db (Unit {0})
    call a s = call_if (ch.open_at s.calls) a s

    abbrev pub await_confirm : Confirm → Handling Db (Unit {0})
    await_confirm confirm = emit confirmed
    await_confirm (refuse message) = raise (other message)
    await_confirm time_out = raise (other "DLQ publish confirm timed out")

    unfoldable pub dead_letter : Delivery → Reason → Handling Db (Unit {0})
    dead_letter msg reason = do
      call (publish (dead_letter_of msg reason))
      await_confirm ch.answer
      call ack

    -- The branches of `attempts >= this.maxAttempts`.
    unfoldable pub retry_or_give_up : Bool → Delivery → String → Handling Db Outcome
    unfolding dead_letter
    retry_or_give_up true msg m = do
      dead_letter msg (gave_up (failed_attempts msg + 1) (other m))
      pure dead_lettered
    retry_or_give_up false msg m = do call nack; pure retried

    module _ (max_attempts : ℕ) where
      -- The `try` block of handleFailure.
      unfoldable pub settle_failure : Delivery → Cause → Handling Db Outcome
      unfolding dead_letter retry_or_give_up
      settle_failure msg (permanent e) = do
        dead_letter msg (permanent_failure e)
        pure dead_lettered
      settle_failure msg (other m) =
          retry_or_give_up (leb max_attempts (failed_attempts msg + 1)) msg m

      -- Could not dead-letter: the delayed retry path.
      unfoldable pub handle_failure : Delivery → Cause → Handling Db Outcome
      unfolding settle_failure
      handle_failure msg err =
          catch (settle_failure msg err) (λ _. do call nack; pure dead_letter_failed)

abbrev pub outcome_of : Bool → Outcome
outcome_of fresh = if fresh then processed else duplicate

module _ (t : NotificationTable) (json_parse : String → Option Json) (max_attempts : ℕ)
    (ch : Channel) where
  abbrev recording : OrderCreatedEvent → Handling t.Db Bool
  recording event s =
      let (r, db') = record_event t event s.db in lift_record r (record s { db = db' })

  -- The `try` block of handleMessage.
  unfoldable pub record_and_ack : Delivery → Handling t.Db Outcome
  unfolding record_event
  record_and_ack msg = do
    event ← lift_parse (parse_order_created json_parse msg.content)
    fresh ← recording event
    call ch ack
    pure (outcome_of fresh)

  unfoldable pub handle_message : Delivery → Handling t.Db (Unit {0})
  handle_message msg = do
    outcome ← catch (record_and_ack msg) (handle_failure ch max_attempts msg)
    emit (count outcome)
