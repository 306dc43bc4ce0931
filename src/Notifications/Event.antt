-- ===== src/Notifications/Event.antt =====
-- messaging/order-created.event.ts: the message body, and what makes it malformed.
-- The texts of the errors are constructors.
pub mod Laws
use platform_engineering_lab.Prelude.{
  ℕ, ◌≡◌, String, Bool, true, false, Option, none, some, ◌==◌, eq_iff, if◌then◌else◌, arith, Result,
  ok, throw,
}
use platform_engineering_lab.Js.Json.{Json, string, property, is_object, as_string}
use platform_engineering_lab.Js.Uuid.{is_uuid}

-- class PermanentError: `not_uuid` holds the name of the field.
pub data PermanentError : Type 0 where
  not_json not_object : PermanentError
  unexpected_type : Json → PermanentError
  not_uuid : String → PermanentError

pub record OrderCreatedEvent : Type 0 where
  pub event_id : String
  pub correlation_id : String
  pub order_id : String
  pub user_id : String

infixl 5 ◌>>=◌
abbrev pub ◌>>=◌ {ℓ κ} :
    {A : Type ℓ} {B : Type κ}
    → Result PermanentError A
    → (A → Result PermanentError B)
    → Result PermanentError B
ok a >>= f = f a
throw e >>= f = throw e

unfoldable pub uuid : Json → String → Result PermanentError String
uuid (string s) name = if is_uuid s then ok s else throw (not_uuid name)
uuid _ name = throw (not_uuid name)

abbrev pub or_unknown : Option String → String
or_unknown none = "unknown"
or_unknown (some s) = s

-- The fields of a body of the right type.
unfoldable pub read_fields : Json → Result PermanentError OrderCreatedEvent
read_fields event = do
  event_id ← uuid (property "eventId" event) "eventId"
  order_id ← uuid (property "orderId" (property "data" event)) "data.orderId"
  user_id ← uuid (property "userId" (property "data" event)) "data.userId"
  ok (record {
    event_id = event_id;
    correlation_id = or_unknown (as_string (property "correlationId" event));
    order_id = order_id;
    user_id = user_id;
  })

abbrev pub is_text : String → Json → Bool
is_text t (string s) = s == t
is_text t _ = false

abbrev pub check_body : Option Json → Result PermanentError OrderCreatedEvent
check_body none = throw not_json
check_body (some body) =
    if is_object body
    then if is_text "order.created" (property "type" body)
      then read_fields body
      else throw (unexpected_type (property "type" body))
    else throw not_object

-- `json_parse` is `JSON.parse` on the decoded bytes; `none` where it throws.
unfoldable pub parse_order_created :
    (String → Option Json) → String → Result PermanentError OrderCreatedEvent
parse_order_created json_parse content = check_body (json_parse content)
