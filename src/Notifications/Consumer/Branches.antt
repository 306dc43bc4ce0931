-- ===== src/Notifications/Consumer/Branches.antt =====
-- What the consumer does with a message on an open channel, branch by branch.
use platform_engineering_lab.Prelude.{
  ℕ, ◌+◌, ◌≡◌, ◌≢◌, String, Bool, true, List, [], ◌∷◌, Option, ok, throw, arith, leb, if◌then◌else◌,
}
use platform_engineering_lab.Js.Json.{Json}
use platform_engineering_lab.Notifications.Event.{
  PermanentError, OrderCreatedEvent, parse_order_created,
}
use platform_engineering_lab.Notifications.Table.{NotificationTable, record_event}
use platform_engineering_lab.Notifications.Broker.{
  other, permanent_failure, gave_up, Delivery, failed_attempts, dead_letter_of, retried,
  dead_lettered, dead_letter_failed, Action, publish, confirmed, ack, nack, count, Channel, confirm,
}
use platform_engineering_lab.Notifications.Consumer.{
  record_and_ack, handle_failure, handle_message, start, outcome_of,
}

-- The channel stays open.
abbrev pub IsOpen : Channel → Type 0
IsOpen ch = (n : ℕ) → ch.open_at n ≡ true

abbrev pub given_up : Delivery → String → List Action
given_up msg m =
    publish (dead_letter_of msg (gave_up (failed_attempts msg + 1) (other m)))
    ∷ confirmed
    ∷ ack
    ∷ count dead_lettered
    ∷ []

module _ (t : NotificationTable) (json_parse : String → Option Json) (max_attempts : ℕ)
    (ch : Channel) (is_open : IsOpen ch) where
  -- On an open channel, a body that is malformed never reaches the database and is never retried:
  -- with a confirming broker the message goes to the dead-letter queue with its reason and is
  -- acknowledged after the confirmation.
  pub handle_message-malformed :
      (msg : Delivery) (db : t.Db) (e : PermanentError)
      → parse_order_created json_parse msg.content ≡ throw e
      → ch.answer ≡ confirm
      → let s = (handle_message t json_parse max_attempts ch msg (start db)).1 in
        (s.db ≡ db)
        × (s.actions
            ≡ publish (dead_letter_of msg (permanent_failure e))
              ∷ confirmed
              ∷ ack
              ∷ count dead_lettered
              ∷ [])
  unfolding handle_message record_and_ack handle_failure
  handle_message-malformed msg db e h c = ground (arith, is_open 0, is_open 1)

  -- A well-formed event whose insert succeeds is acknowledged at once, as new or as a duplicate.
  pub handle_message-recorded :
      (msg : Delivery) (db : t.Db) (event : OrderCreatedEvent) (b : Bool)
      → parse_order_created json_parse msg.content ≡ ok event
      → (record_event t event db).0 ≡ ok b
      → let s = (handle_message t json_parse max_attempts ch msg (start db)).1 in
        s.actions ≡ ack ∷ count (outcome_of b) ∷ []
  unfolding handle_message record_and_ack
  handle_message-recorded msg db event b h r = ground (arith, is_open 0)

  -- On an open channel with a confirming broker, a database failure on a well-formed message sends it
  -- to the dead-letter queue where its attempts, with this one, reach the maximum; otherwise it is
  -- rejected, for a retry.
  pub handle_message-failed :
      (msg : Delivery) (db : t.Db) (event : OrderCreatedEvent) (m : String)
      → parse_order_created json_parse msg.content ≡ ok event
      → (record_event t event db).0 ≡ throw m
      → ch.answer ≡ confirm
      → let s = (handle_message t json_parse max_attempts ch msg (start db)).1 in
        s.actions ≡ (
          if leb max_attempts (failed_attempts msg + 1)
          then given_up msg m
          else nack ∷ count retried ∷ [])
  unfolding handle_message record_and_ack handle_failure
  handle_message-failed msg db event m h r c = ground (arith, is_open 0, is_open 1)

  -- On an open channel, where the dead-letter publication is not confirmed, the message goes the
  -- way of a retry, and the metric says so.
  pub handle_message-unconfirmed :
      (msg : Delivery) (db : t.Db) (e : PermanentError)
      → parse_order_created json_parse msg.content ≡ throw e
      → ch.answer ≢ confirm
      → let s = (handle_message t json_parse max_attempts ch msg (start db)).1 in
        s.actions
        ≡ publish (dead_letter_of msg (permanent_failure e)) ∷ nack ∷ count dead_letter_failed ∷ []
  unfolding handle_message record_and_ack handle_failure
  handle_message-unconfirmed msg db e h c = ground (arith, is_open 0, is_open 1)
