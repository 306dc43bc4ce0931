-- ===== src/Notifications/Event/Laws.antt =====
-- Which message bodies parseOrderCreated accepts.
use platform_engineering_lab.Prelude.{
  ◌≡◌, ◌↔◌, refl, ap, String, true, Option, some, eq_iff, arith, Result, ok, throw, Option-cases,
  inl, inr, Bool-cases,
}
use platform_engineering_lab.Js.Json.{Json, string, property, is_object, as_string}
use platform_engineering_lab.Js.Uuid.{is_uuid}
use platform_engineering_lab.Notifications.Event.{
  PermanentError, OrderCreatedEvent, uuid, read_fields, or_unknown, parse_order_created, ◌>>=◌,
  is_text,
}

-- The contract of the message: an object of the type "order.created", with three UUIDs.
pub record IsOrderCreated (body : Json) (e : OrderCreatedEvent) : Type 0 where
  pub an_object : is_object body ≡ true
  pub its_type : property "type" body ≡ string "order.created"
  pub event_id : property "eventId" body ≡ string e.event_id
  pub order_id : property "orderId" (property "data" body) ≡ string e.order_id
  pub user_id : property "userId" (property "data" body) ≡ string e.user_id
  pub correlation_id : e.correlation_id ≡ or_unknown (as_string (property "correlationId" body))
  pub event_uuid : is_uuid e.event_id ≡ true
  pub order_uuid : is_uuid e.order_id ≡ true
  pub user_uuid : is_uuid e.user_id ≡ true

bind-eq-ok {ℓ κ} :
    {A : Type ℓ} {B : Type κ} (m : Result PermanentError A) (f : A → Result PermanentError B)
    {b : B}
    → (m >>= f) ≡ ok b
    → (a : A) × (m ≡ ok a) × (f a ≡ ok b)
bind-eq-ok (ok a) f h = (a, refl, h)
bind-eq-ok (throw e) f h = cc

uuid-eq-ok : (j : Json) (name s : String) → uuid j name ≡ ok s → (j ≡ string s) × (is_uuid s ≡ true)
unfolding uuid
uuid-eq-ok (string u) name s h = ground arith
uuid-eq-ok j name s h = cc

uuid-string : (name s : String) → is_uuid s ≡ true → uuid (string s) name ≡ ok s
unfolding uuid
uuid-string name s h = ground arith

read_fields_sound :
    (body : Json) (e : OrderCreatedEvent)
    → is_object body ≡ true
    → property "type" body ≡ string "order.created"
    → read_fields body ≡ ok e
    → IsOrderCreated body e
unfolding read_fields
read_fields_sound body e o y h =
    let (i, p, h₁) = bind-eq-ok (uuid (property "eventId" body) "eventId") _ h in
    let (j, q, h₂) =
      bind-eq-ok (uuid (property "orderId" (property "data" body)) "data.orderId") _ h₁ in
    let (k, r, h₃) =
      bind-eq-ok (uuid (property "userId" (property "data" body)) "data.userId") _ h₂ in
    let (ji, ui) = uuid-eq-ok _ "eventId" i p in
    let (jj, uj) = uuid-eq-ok _ "data.orderId" j q in
    let (jk, uk) = uuid-eq-ok _ "data.userId" k r in
    record {
      an_object = o;
      its_type = y;
      event_id = cc;
      order_id = cc;
      user_id = cc;
      correlation_id = cc;
      event_uuid = ground arith;
      order_uuid = ground arith;
      user_uuid = ground arith;
    }

read_fields_complete :
    (body : Json) (e : OrderCreatedEvent) → IsOrderCreated body e → read_fields body ≡ ok e
unfolding read_fields
read_fields_complete body e w = rw (
  w.event_id,
  w.order_id,
  w.user_id,
  uuid-string "eventId" e.event_id w.event_uuid,
  uuid-string "data.orderId" e.order_id w.order_uuid,
  uuid-string "data.userId" e.user_id w.user_uuid,
  ← w.correlation_id,
)

is_text-string : (j : Json) (s : String) → is_text s j ≡ true → j ≡ string s
is_text-string (string u) s h = ap string ((eq_iff u s).0 h)
is_text-string j s h = cc

-- A content is accepted exactly when it parses to a body that meets the contract, and the event
-- then holds that body's ids and its correlation id, or "unknown".
pub parse_order_created_iff :
    (json_parse : String → Option Json) (content : String) (e : OrderCreatedEvent)
    → (parse_order_created json_parse content ≡ ok e)
      ↔ ((body : Json) × (json_parse content ≡ some body) × IsOrderCreated body e)
unfolding parse_order_created
parse_order_created_iff json_parse content e = (
  λ h. elim (Option-cases (json_parse content)) [
    | inl none_at ↦ absurd (ground arith)
    | inr (body, parsed) ↦ elim (Bool-cases (is_text "order.created" (property "type" body))) [
      | inl typed ↦ (
        body,
        parsed,
        read_fields_sound body e (ground arith) (is_text-string _ _ typed) (ground arith),
      )
      | inr other ↦ absurd (ground arith)
    ]
  ],
  λ (body, parsed, w). rw parsed (rw (w.an_object, w.its_type) (read_fields_complete body e w)),
)
