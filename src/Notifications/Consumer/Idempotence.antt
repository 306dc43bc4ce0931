-- ===== src/Notifications/Consumer/Idempotence.antt =====
-- Redelivered and concurrent copies of an event: its row, and the outcome `processed`, come once.
use platform_engineering_lab.Prelude.{
  ℕ, ◌+◌, ◌≤◌, ◌≡◌, String, Bool, true, false, List, [], ◌∷◌, Option, some, Result, ok, throw,
  Result-cases, arith, ◌&&◌, ◌==◌, eq_iff, if◌then◌else◌, inl, inr,
}
use platform_engineering_lab.Js.Json.{Json}
use platform_engineering_lab.Notifications.Event.{
  PermanentError, OrderCreatedEvent, parse_order_created,
}
use platform_engineering_lab.Notifications.Table.{
  NotificationTable, key, record_event, record_event-new, record_event-keeps,
  record_event-keeps_row, Row,
}
use platform_engineering_lab.Notifications.Broker.{Delivery, processed, Action, count, Channel}
use platform_engineering_lab.Notifications.Consumer.{
  record_and_ack, handle_failure, handle_message, start,
}

abbrev pub is_processed : List Action → Bool
is_processed [] = false
is_processed (count processed ∷ log) = true
is_processed (a ∷ log) = is_processed log

abbrev pub has_key : String → Result PermanentError OrderCreatedEvent → Bool
has_key k (ok event) = key event == k
has_key k (throw e) = false

module _ (t : NotificationTable) (json_parse : String → Option Json) (max_attempts : ℕ) where
  -- The consumer's deliveries, one after another, each with the channel that it came by.
  pub consume : List (Delivery × Channel) → t.Db → t.Db
  consume [] db = db
  consume ((msg, ch) ∷ ds) db =
      consume ds (handle_message t json_parse max_attempts ch msg (start db)).1.db

  -- How many of the deliveries were counted as processed, for the event of that id.
  pub processed_times : String → List (Delivery × Channel) → t.Db → ℕ
  processed_times k [] db = 0
  processed_times k ((msg, ch) ∷ ds) db =
      let s = (handle_message t json_parse max_attempts ch msg (start db)).1 in
      (if has_key k (parse_order_created json_parse msg.content) && is_processed s.actions
        then 1
        else 0)
      + processed_times k ds s.db

  module _ (k : String) (msg : Delivery) (ch : Channel) (db : t.Db) where
    db_malformed :
        (e : PermanentError)
        → parse_order_created json_parse msg.content ≡ throw e
        → (handle_message t json_parse max_attempts ch msg (start db)).1.db ≡ db
    unfolding handle_message record_and_ack handle_failure
    db_malformed e h = ground arith

    db_recorded :
        (event : OrderCreatedEvent)
        → parse_order_created json_parse msg.content ≡ ok event
        → (handle_message t json_parse max_attempts ch msg (start db)).1.db
          ≡ (record_event t event db).1
    unfolding handle_message record_and_ack handle_failure
    db_recorded event h = ground arith

    new_if_processed :
        (event : OrderCreatedEvent)
        → parse_order_created json_parse msg.content ≡ ok event
        → is_processed (handle_message t json_parse max_attempts ch msg (start db)).1.actions ≡ true
        → (record_event t event db).0 ≡ ok true
    unfolding handle_message record_and_ack handle_failure
    new_if_processed event h p = ground arith

    one_delivery :
        let s = (handle_message t json_parse max_attempts ch msg (start db)).1 in
        t.rows k db
          + (if has_key k (parse_order_created json_parse msg.content) && is_processed s.actions
              then 1
              else 0)
        ≤ t.rows k s.db
    one_delivery = elim (Result-cases (parse_order_created json_parse msg.content)) [
      | inl (event, parsed) ↦
          let s = (handle_message t json_parse max_attempts ch msg (start db)).1 in
          ground (
            arith,
            parsed,
            db_recorded event parsed,
            eq_iff (key event) k,
            record_event-keeps t event db k,
            new_if_processed event parsed,
            record_event-new t event db,
          )
      | inr (e, malformed) ↦ ground (arith, db_malformed e malformed)
    ]

  handle_message-keeps_row :
      (k : String) (x : Row) (msg : Delivery) (ch : Channel) (db : t.Db)
      → t.row k db ≡ some x
      → t.row k (handle_message t json_parse max_attempts ch msg (start db)).1.db ≡ some x
  handle_message-keeps_row k x msg ch db h =
      elim (Result-cases (parse_order_created json_parse msg.content)) [
        | inl (event, parsed) ↦
            rw (db_recorded k msg ch db event parsed) (record_event-keeps_row t event db k x h)
        | inr (e, malformed) ↦ rw (db_malformed k msg ch db e malformed) h
      ]

  -- A row that is there stays there as it is, whatever is delivered.
  pub consume-keeps_row :
      (k : String) (x : Row) (ds : List (Delivery × Channel)) (db : t.Db)
      → t.row k db ≡ some x
      → t.row k (consume ds db) ≡ some x
  unfolding consume
  consume-keeps_row k x [] db h = h
  consume-keeps_row k x ((msg, ch) ∷ ds) db h =
      consume-keeps_row k x ds (handle_message t json_parse max_attempts ch msg (start db)).1.db
        (handle_message-keeps_row k x msg ch db h)

  -- Whatever the deliveries, the channels and the failures of the database: an event is counted as
  -- processed at most once, and then not if its row was there before; no row is ever lost.
  pub consume-once :
      (k : String) (ds : List (Delivery × Channel)) (db : t.Db)
      → (t.rows k db + processed_times k ds db ≤ t.rows k (consume ds db))
        × (t.rows k (consume ds db) ≤ 1)
  unfolding consume processed_times
  consume-once k [] db = (omega arith, t.unique k db)
  consume-once k ((msg, ch) ∷ ds) db =
      let s = (handle_message t json_parse max_attempts ch msg (start db)).1 in
      let later = consume-once k ds s.db in
      (omega (arith, one_delivery k msg ch db, later.0), later.1)

  -- Where there is one row of an event, there is one after any deliveries.
  pub consume-one :
      (k : String) (ds : List (Delivery × Channel)) (db : t.Db)
      → t.rows k db ≡ 1
      → t.rows k (consume ds db) ≡ 1
  consume-one k ds db h = omega (arith, (consume-once k ds db).0, (consume-once k ds db).1, h)
