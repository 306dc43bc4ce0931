-- ===== src/Contract.antt =====
-- The message between order-service and notification-worker: what publishCreated hands to RabbitMQ is
-- what parseOrderCreated accepts.
use platform_engineering_lab.Prelude.{
  ℕ, ◌≡◌, refl, String, Bool, true, false, List, [], ◌∷◌, Option, some, ok, arith,
}
use platform_engineering_lab.Js.Json.{Json}
use platform_engineering_lab.Js.Text.{to_lower_case}
use platform_engineering_lab.Js.Uuid.{is_uuid}
use platform_engineering_lab.Orders.Types.{Order}
use platform_engineering_lab.Orders.Service.{Stamp, event_of}
use platform_engineering_lab.Orders.Publisher.Message.{json_of, json_of_data, publication_of}
use platform_engineering_lab.Notifications.Event.{OrderCreatedEvent, parse_order_created}
use platform_engineering_lab.Notifications.Event.Laws.{parse_order_created_iff}
use platform_engineering_lab.Notifications.Table.{
  NotificationTable, record_event, record_event-stored, record_event-new,
}
use platform_engineering_lab.Notifications.Broker.{Delivery, ack, count, Channel}
use platform_engineering_lab.Notifications.Consumer.{
  record_and_ack, handle_message, start, outcome_of,
}
use platform_engineering_lab.Notifications.Consumer.Idempotence.{
  consume, consume-keeps_row, consume-one,
}
use platform_engineering_lab.Notifications.Consumer.Branches.{IsOpen, handle_message-recorded}

-- The event that the worker should read.
abbrev pub received : Stamp → String → Order → OrderCreatedEvent
received stamp correlation_id order = record {
  event_id = stamp.event_id;
  correlation_id = correlation_id;
  order_id = order.id;
  user_id = order.user_id;
}

-- JSON.parse reads what JSON.stringify has written; the ids are UUIDs, as randomUUID and the columns
-- of PostgreSQL are.
pub record IsTransmitted (json_stringify : Json → String) (json_parse : String → Option Json)
    (stamp : Stamp) (correlation_id : String) (order : Order) : Type 0 where
  pub reads :
      json_parse (json_stringify (json_of (event_of stamp correlation_id order)))
      ≡ some (json_of (event_of stamp correlation_id order))
  pub event_uuid : is_uuid stamp.event_id ≡ true
  pub order_uuid : is_uuid order.id ≡ true
  pub user_uuid : is_uuid order.user_id ≡ true

module _ (t : NotificationTable) (event_id : String) (order : Order) where
  -- The table has one row of the event; if the row is new, it is of the order and of its user.
  abbrev pub HasRow : Bool → t.Db → Type 0
  HasRow false db = t.rows (to_lower_case event_id) db ≡ 1
  HasRow true db =
      (t.rows (to_lower_case event_id) db ≡ 1)
      × (t.row (to_lower_case event_id) db
          ≡ some (record {
            event_id = to_lower_case event_id;
            order_id = to_lower_case order.id;
            user_id = to_lower_case order.user_id;
          }))

  -- Later deliveries leave it so.
  pub consume-HasRow :
      (json_parse : String → Option Json) (max_attempts : ℕ) (fresh : Bool)
      (ds : List (Delivery × Channel)) (db : t.Db)
      → HasRow fresh db
      → HasRow fresh (consume t json_parse max_attempts ds db)
  consume-HasRow json_parse max_attempts false ds db one =
      consume-one t json_parse max_attempts (to_lower_case event_id) ds db one
  consume-HasRow json_parse max_attempts true ds db (one, row) = (
    consume-one t json_parse max_attempts (to_lower_case event_id) ds db one,
    consume-keeps_row t json_parse max_attempts (to_lower_case event_id) _ ds db row,
  )

module _ (json_stringify : Json → String) (date_parse : String → Option ℕ)
    (json_parse : String → Option Json) (stamp : Stamp) (correlation_id : String) (order : Order)
    (sent : IsTransmitted json_stringify json_parse stamp correlation_id order) where
  -- The worker reads from the content that the publisher sends for a new order the ids of the event,
  -- of the order and of its user, and the correlation id of the request.
  pub publication_of-parse_order_created :
      parse_order_created json_parse
        (publication_of json_stringify date_parse "order.created"
          (event_of stamp correlation_id order)).content
      ≡ ok (received stamp correlation_id order)
  unfolding publication_of json_of json_of_data event_of
  publication_of-parse_order_created =
      (parse_order_created_iff json_parse
          (json_stringify (json_of (event_of stamp correlation_id order)))
          (received stamp correlation_id order)).1
        (
          json_of (event_of stamp correlation_id order),
          sent.reads,
          record {
            an_object = refl;
            its_type = refl;
            event_id = refl;
            order_id = refl;
            user_id = refl;
            correlation_id = refl;
            event_uuid = sent.event_uuid;
            order_uuid = sent.order_uuid;
            user_uuid = sent.user_uuid;
          },
        )

  module _ (t : NotificationTable) (max_attempts : ℕ) (ch : Channel) (is_open : IsOpen ch) where
    after-db :
        (msg : Delivery) (db : t.Db) (e : OrderCreatedEvent) (fresh : Bool)
        → parse_order_created json_parse msg.content ≡ ok e
        → (record_event t e db).0 ≡ ok fresh
        → (handle_message t json_parse max_attempts ch msg (start db)).1.db
          ≡ (record_event t e db).1
    unfolding handle_message record_and_ack
    after-db msg db e fresh h r = ground (arith, is_open 0)

    recorded-HasRow :
        (db : t.Db) (fresh : Bool)
        → (record_event t (received stamp correlation_id order) db).0 ≡ ok fresh
        → HasRow t stamp.event_id order fresh
            (record_event t (received stamp correlation_id order) db).1
    recorded-HasRow db false stored =
        record_event-stored t (received stamp correlation_id order) db false stored
    recorded-HasRow db true stored =
        let (_, one, row) = record_event-new t (received stamp correlation_id order) db stored in
        (one, row)

    -- A delivery of that content on an open channel, whose insert succeeds, is acknowledged at once,
    -- and leaves exactly one row of the event that order-service has created, with the order and its
    -- user where the row is new.
    pub publication_of-handle_message :
        (msg : Delivery) (db : t.Db) (fresh : Bool)
        → msg.content
          ≡ (publication_of json_stringify date_parse "order.created"
              (event_of stamp correlation_id order)).content
        → (record_event t (received stamp correlation_id order) db).0 ≡ ok fresh
        → let s = (handle_message t json_parse max_attempts ch msg (start db)).1 in
          (s.actions ≡ ack ∷ count (outcome_of fresh) ∷ [])
          × HasRow t stamp.event_id order fresh s.db
    publication_of-handle_message msg db fresh same stored =
        let parsed : parse_order_created json_parse msg.content
            ≡ ok (received stamp correlation_id order) =
          rw same publication_of-parse_order_created in
        (
          handle_message-recorded t json_parse max_attempts ch is_open msg db
              (received stamp correlation_id order) fresh parsed stored,
          rw (after-db msg db (received stamp correlation_id order) fresh parsed stored)
              (recorded-HasRow db fresh stored),
        )
