-- ===== src/Journey.antt =====
-- One order on its way through the system: the request at api-gateway, the order in order-service, its
-- event on RabbitMQ and the notification in notification-worker.
mod Tests
use platform_engineering_lab.Prelude.{
  ℕ, ◌≡◌, ◌≢◌, ◌⊎◌, inl, inr, refl, sym, ap, subst, arith, ◌∙◌, String, Bool, true, ◌||◌, List, [],
  ◌∷◌, Option, some, Result, ok,
}
use mathlib.Core.Option.{some-injective}
use platform_engineering_lab.Pipeline.{replied}
use platform_engineering_lab.Js.Json.{Json}
use platform_engineering_lab.Auth.Verifier.{Principal, VerifyError}
use platform_engineering_lab.Auth.Guard.{bearer_token}
use platform_engineering_lab.Auth.Ownership.{is_admin, is_owner}
use platform_engineering_lab.Gateway.Exchange.{Exchange, Forward}
use platform_engineering_lab.Gateway.Middleware.{
  RateLimit, ProxyOptions, Proxied, GatewayConfig, Entrance, chosen_id, gateway,
}
use platform_engineering_lab.Gateway.Middleware.Outcomes.{IsAdmitted}
use platform_engineering_lab.Gateway.Middleware.Laws.{gateway-forwards_iff}
use platform_engineering_lab.Upstream.{gen_req_id}
use platform_engineering_lab.Upstream.Laws.{keeps_id}
use platform_engineering_lab.Orders.Types.{Order}
use platform_engineering_lab.Orders.Service.{event_of}
use platform_engineering_lab.Orders.Service.Stored.{stored}
use platform_engineering_lab.Orders.Publisher.Message.{publication_of}
use platform_engineering_lab.Orders.App.{Incoming, Deployment, State, id_of, post_order}
use platform_engineering_lab.Orders.App.Laws.{IsServed, Outcome, post_order-replies}
use platform_engineering_lab.Notifications.Table.{NotificationTable, record_event}
use platform_engineering_lab.Notifications.Broker.{Delivery, ack, count, Channel}
use platform_engineering_lab.Notifications.Consumer.{handle_message, start, outcome_of}
use platform_engineering_lab.Notifications.Consumer.Idempotence.{consume}
use platform_engineering_lab.Notifications.Consumer.Branches.{IsOpen}
use platform_engineering_lab.Contract.{
  received, IsTransmitted, HasRow, consume-HasRow, publication_of-handle_message,
}

-- The header holds a token that verifies as this principal's.
abbrev pub Bears : (String → Result VerifyError Principal) → Option String → Principal → Type 0
Bears verify authorization p =
    (token : String) × (bearer_token authorization ≡ some token) × (verify token ≡ ok p)

module _ (rate_limit : RateLimit) (proxy : ProxyOptions → Forward → Proxied)
    (config : GatewayConfig) (entrance : Entrance) (s : Exchange rate_limit.Limits) {Body : Type 0}
    (d : Deployment Body) (r : Incoming Body) where
  -- The id that the gateway gives to the request.
  abbrev pub request_id : String
  request_id = chosen_id s.assigned s.request_id entrance.fresh

  -- The gateway has sent the request on, and it has come to order-service as it was sent; both verify
  -- tokens alike.
  pub record HasArrived (target : String) (x : Forward) : Type 0 where
    pub at_rest : s.forwarded ≡ []
    pub sent : (gateway rate_limit proxy config entrance s).1.forwarded ≡ (target, x) ∷ []
    pub authorization : r.authorization ≡ x.authorization
    pub id : r.request_id ≡ x.request_id
    pub named : request_id ≢ ""
    pub alike : (token : String) → d.verify token ≡ config.verifier token

  module _ (target : String) (x : Forward) (arrived : HasArrived target x) where
    -- The caller as the gateway has verified them.
    abbrev admitted : IsAdmitted rate_limit proxy config entrance s target
    admitted =
        ((gateway-forwards_iff rate_limit proxy config entrance s target x arrived.at_rest).0
          arrived.sent).0

    as_sent : x ≡ record {
      original_url = s.original_url;
      request_id = some request_id;
      authorization = s.authorization;
    }
    as_sent =
        ((gateway-forwards_iff rate_limit proxy config entrance s target x arrived.at_rest).0
          arrived.sent).1

    same_id : id_of d r ≡ request_id
    same_id =
        ap (λ i. gen_req_id i r.fresh) (arrived.id ∙ ap (λ (f : Forward). f.request_id) as_sent)
        ∙ keeps_id request_id r.fresh arrived.named

    same_caller : (p : Principal) → IsServed d r.authorization p → p ≡ admitted.principal
    same_caller p served =
        let tokens : ◌≡◌ {A = Option String} (some served.token) (some admitted.token) =
          sym served.carried
          ∙ ap bearer_token (arrived.authorization ∙ ap (λ (f : Forward). f.authorization) as_sent)
          ∙ admitted.carried in
        let same : served.token ≡ admitted.token =
          some-injective served.token admitted.token tokens in
        let verified : ◌≡◌ {A = Result VerifyError Principal} (ok p) (ok admitted.principal) =
          sym served.verified
          ∙ arrived.alike served.token
          ∙ ap config.verifier same
          ∙ admitted.verified in
        cc (verified)

    replied_to :
        (status : ℕ) (o : Order) (w w' : State d)
        → post_order d r w ≡ (replied status o, w')
        → ((is_admin admitted.principal || is_owner admitted.principal o.user_id) ≡ true)
          × Outcome d r w status o w'
    replied_to status o w w' h =
        let (p, served, own, outcome) = post_order-replies d r status o w w' h in
        (
          subst (λ q. (is_admin q || is_owner q o.user_id) ≡ true) (same_caller p served) own,
          outcome,
        )

    is_new :
        (o : Order) (w w' : State d)
        → Outcome d r w 201 o w'
        → (d.store.order_row w'.db o.id ≡ some (stored o))
          × (w'.broker ≡ (d.publish (event_of r.stamp request_id o) w.broker).1)
    is_new o w w' (inl (_, row, announced)) = (
      row,
      subst (λ i. w'.broker ≡ (d.publish (event_of r.stamp i o) w.broker).1) same_id announced,
    )
    is_new o w w' (inr (old, _)) = absurd (omega (arith, old))

    module _ (json_stringify : Json → String) (date_parse : String → Option ℕ)
        (json_parse : String → Option Json) (t : NotificationTable) (max_attempts : ℕ)
        (ch : Channel) (is_open : IsOpen ch) where
      -- A request that the gateway has sent on to order-service, which verifies tokens alike, and that is
      -- answered 201 with an order: the order belongs to the caller whom the gateway has verified, unless
      -- that caller is an admin; it is stored, and its event is handed to the publisher once, with the
      -- gateway's request id as correlation id. Where JSON.parse reads what JSON.stringify has written and
      -- the ids are UUIDs, every delivery of that event to a worker with an open channel whose insert
      -- succeeds is acknowledged at once and leaves exactly one notification of the event, and if the
      -- insert was the first, one of that order and of its user; whatever is delivered later, the
      -- notification stays so.
      pub post_order-notified :
          (o : Order) (w w' : State d)
          → post_order d r w ≡ (replied 201 o, w')
          → IsTransmitted json_stringify json_parse r.stamp request_id o
          → (msg : Delivery) (db : t.Db) (fresh : Bool) (later : List (Delivery × Channel))
          → msg.content
            ≡ (publication_of json_stringify date_parse "order.created"
                (event_of r.stamp request_id o)).content
          → (record_event t (received r.stamp request_id o) db).0 ≡ ok fresh
          → let v = (handle_message t json_parse max_attempts ch msg (start db)).1 in
            ((p : Principal) × Bears config.verifier s.authorization p
              × ((is_admin p || is_owner p o.user_id) ≡ true))
            × (d.store.order_row w'.db o.id ≡ some (stored o))
            × (w'.broker ≡ (d.publish (event_of r.stamp request_id o) w.broker).1)
            × (v.actions ≡ ack ∷ count (outcome_of fresh) ∷ [])
            × HasRow t r.stamp.event_id o fresh v.db
            × HasRow t r.stamp.event_id o fresh (consume t json_parse max_attempts later v.db)
      post_order-notified o w w' h sent msg db fresh later content inserted =
          let (own, outcome) = replied_to 201 o w w' h in
          let (row, announced) = is_new o w w' outcome in
          let (acked, one) =
            publication_of-handle_message json_stringify date_parse json_parse r.stamp request_id o
              sent t max_attempts ch is_open msg db fresh content inserted in
          let bears : Bears config.verifier s.authorization admitted.principal =
            (admitted.token, admitted.carried, admitted.verified) in
          (
            (admitted.principal, bears, own),
            row,
            announced,
            acked,
            one,
            consume-HasRow t r.stamp.event_id o json_parse max_attempts fresh later _ one,
          )
