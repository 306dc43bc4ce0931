-- ===== src/Orders/Publisher/Message.antt =====
-- What `publish` of infra/event-publisher.service.ts hands to the channel. JSON.stringify and
-- Date.parse are parameters; the latter in milliseconds since 1970, or none where the text is no date.
use platform_engineering_lab.Prelude.{ℕ, ◌/◌, String, Bool, true, Option, none, some}
use platform_engineering_lab.Js.Json.{Json, string, number, object, field, end}
use platform_engineering_lab.Orders.Types.{OrderData, DomainEvent}

abbrev pub orders_exchange : String
orders_exchange = "orders"

-- The arguments of channel.publish, with its options.
pub record Publication : Type 0 where
  pub exchange : String
  pub routing_key : String
  pub content : String
  pub persistent : Bool
  pub content_type : String
  pub type_name : String
  pub message_id : String
  pub correlation_id : String
  pub timestamp : Option ℕ

-- The event as an object: `data` is built by publishCreated.
unfoldable pub json_of_data : OrderData → Json
json_of_data d = object (
    field "orderId" (string d.order_id) (
      field "userId" (string d.user_id)
        (field "amount" (number d.amount) (field "description" (string d.description) end))))

unfoldable pub json_of : DomainEvent → Json
json_of e = object (
    field "eventId" (string e.event_id) (
      field "type" (string e.type_name) (
        field "occurredAt" (string e.occurred_at) (
          field "correlationId" (string e.correlation_id)
            (field "data" (json_of_data e.payload) end)))))

abbrev pub in_seconds : Option ℕ → Option ℕ
in_seconds none = none
in_seconds (some ms) = some (ms / 1000)

module _ (json_stringify : Json → String) (date_parse : String → Option ℕ) where
  unfoldable pub publication_of : String → DomainEvent → Publication
  publication_of routing_key event = record {
    exchange = orders_exchange;
    routing_key = routing_key;
    content = json_stringify (json_of event);
    persistent = true;
    content_type = "application/json";
    type_name = event.type_name;
    message_id = event.event_id;
    correlation_id = event.correlation_id;
    timestamp = in_seconds (date_parse event.occurred_at);
  }
