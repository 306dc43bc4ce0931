-- ===== src/Notifications/Consumer/Tests.antt =====
-- The consumer and its helpers at concrete messages.
use platform_engineering_lab.Prelude.{
  ℕ, ◌+◌, ◌≤◌, ◌<◌, ◌≡◌, ◌↔◌, ◌⊎◌, refl, Bool, true, List, [], ◌∷◌, ◌++◌, some, arith, ok, throw,
  replicate,
}
use platform_engineering_lab.Js.Json.{Json}
use platform_engineering_lab.Js.Uuid.{is_uuid}
use platform_engineering_lab.Notifications.Event.{not_json, parse_order_created, read_fields, uuid}
use platform_engineering_lab.Notifications.Event.Laws.{IsOrderCreated, parse_order_created_iff}
use platform_engineering_lab.Notifications.Table.{record_event, key}
use platform_engineering_lab.Notifications.Broker.{
  Outcome, ack, nack, count, processed, retried, dead_lettered, failed_attempts, Delivery, Channel,
}
use platform_engineering_lab.Notifications.Consumer.{
  Session, start, handle_message, record_and_ack, handle_failure,
}
use platform_engineering_lab.Notifications.Consumer.Settling.{
  settled, one_if_ok, IsStored, confirmed_first, handle_message-settled, handle_message-ack_safe,
}
use platform_engineering_lab.Notifications.Consumer.Branches.{IsOpen}
use platform_engineering_lab.Notifications.Consumer.Retries.{life, life-ends, life-outage, IsFinal}
use platform_engineering_lab.Notifications.Consumer.Idempotence.{
  consume, processed_times, consume-once,
}
use platform_engineering_lab.Notifications.Consumer.Samples.{
  Rows, rows_table, down_table, rejecting, parse, event, message, open_channel, closed_channel,
  empty_rows,
}

abbrev order : Delivery
order = message "order"

abbrev noise : Delivery
noise = message "noise"

parses : parse_order_created parse "order" ≡ ok event
unfolding parse_order_created read_fields uuid is_uuid
parses = refl

not_parsed : parse_order_created parse "noise" ≡ throw not_json
unfolding parse_order_created
not_parsed = refl

stays-IsOpen : IsOpen open_channel
stays-IsOpen n = refl

no_attempts : failed_attempts order ≡ 0
unfolding failed_attempts
no_attempts = refl

-- The count of the one entry for the main queue grows.
two_attempts : failed_attempts (rejecting.redeliver (rejecting.redeliver order)) ≡ 2
unfolding failed_attempts
two_attempts = refl

abbrev run : (msg : Delivery) → Channel → List Bool → Session Rows
run msg ch failures = (handle_message rows_table parse 3 ch msg (start (empty_rows failures))).1

log_of_order : (run order open_channel []).actions ≡ ack ∷ count processed ∷ []
unfolding handle_message record_and_ack record_event parse_order_created read_fields uuid is_uuid
log_of_order = refl

log_of_failure : (run order open_channel (true ∷ [])).actions ≡ nack ∷ count retried ∷ []
unfolding handle_message record_and_ack handle_failure record_event parse_order_created read_fields
    uuid is_uuid failed_attempts
log_of_failure = refl

handle_message-settled_example :
    let (r, s) = handle_message rows_table parse 3 closed_channel order (start (empty_rows [])) in
    settled s.actions ≡ one_if_ok r
handle_message-settled_example =
    handle_message-settled rows_table parse 3 closed_channel order (empty_rows [])

handle_message-ack_safe_example :
    IsStored rows_table parse 3 open_channel order (run order open_channel []).db
    ⊎ (confirmed_first order (run order open_channel []).actions ≡ true)
unfolding handle_message record_and_ack record_event parse_order_created read_fields uuid is_uuid
handle_message-ack_safe_example =
    handle_message-ack_safe rows_table parse 3 open_channel order (empty_rows []) (ok tt)
      (run order open_channel []) refl refl

record_fails : (record_event down_table event (empty_rows [])).0 ≡ throw "down"
unfolding record_event
record_fails = refl

life-ends_example :
    (k : ℕ) × (o : Outcome) × (life rows_table parse 3 open_channel rejecting 3 order
        (empty_rows (true ∷ []))
      ≡ replicate k retried ++ o ∷ [])
    × (k + failed_attempts order < 3)
    × IsFinal o
life-ends_example =
    life-ends rows_table parse 3 open_channel stays-IsOpen refl rejecting 3 order
      (empty_rows (true ∷ [])) (omega (arith, no_attempts)) (omega (arith, no_attempts))

life-outage_example :
    life down_table parse 3 open_channel rejecting 3 order (empty_rows [])
    ≡ retried ∷ retried ∷ dead_lettered ∷ []
life-outage_example =
    life-outage down_table parse 3 open_channel stays-IsOpen refl rejecting 3 2 order
      (empty_rows []) event (λ e db. ("down", unfold record_event in refl)) parses
      (omega (arith, no_attempts)) (omega arith)

abbrev twice : List (Delivery × Channel)
twice = (order, closed_channel) ∷ (order, open_channel) ∷ (order, open_channel) ∷ []

consume-once_example :
    (rows_table.rows (key event) (empty_rows [])
        + processed_times rows_table parse 3 (key event) twice (empty_rows [])
      ≤ rows_table.rows (key event) (consume rows_table parse 3 twice (empty_rows [])))
    × (rows_table.rows (key event) (consume rows_table parse 3 twice (empty_rows [])) ≤ 1)
consume-once_example = consume-once rows_table parse 3 (key event) twice (empty_rows [])

parse_order_created_iff_example :
    (parse_order_created parse "order" ≡ ok event)
    ↔ ((b : Json) × (parse "order" ≡ some b) × IsOrderCreated b event)
parse_order_created_iff_example = parse_order_created_iff parse "order" event
