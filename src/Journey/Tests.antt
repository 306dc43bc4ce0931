-- ===== src/Journey/Tests.antt =====
-- A customer's order, all the way.
use native.Mathlib.Decide.{dec_le}
use platform_engineering_lab.Prelude.{
  ℕ, ◌+◌, ◌≡◌, refl, String, true, false, ◌||◌, List, [], ◌∷◌, Option, none, some, Result, ok,
  throw, ◌==◌, if◌then◌else◌, ltb,
}
use platform_engineering_lab.Js.Json.{Json}
use platform_engineering_lab.Js.Text.{strip_prefix, to_lower_case}
use platform_engineering_lab.Js.Pattern.{match_prefix, is_token}
use platform_engineering_lab.Js.Uuid.{is_uuid}
use platform_engineering_lab.Auth.Verifier.{Principal, VerifyError, token_invalid, signature}
use platform_engineering_lab.Auth.Guard.{bearer_token, can_activate}
use platform_engineering_lab.Auth.Ownership.{is_admin, is_owner, assert_self_or_admin}
use platform_engineering_lab.Gateway.Exchange.{Exchange, Forward}
use platform_engineering_lab.Gateway.Routing.{path_of, is_under, route_of, app_routes}
use platform_engineering_lab.Gateway.Middleware.{
  RateLimit, ProxyOptions, Proxied, passed_on, GatewayConfig, Entrance, request_id, limiter, router,
  authenticate, send_on, run_all, create_gateway, gateway,
}
use platform_engineering_lab.Pipeline.{Answer, replied, serve}
use platform_engineering_lab.Upstream.{gen_req_id}
use platform_engineering_lab.Orders.Types.{CreateOrderDto, Order, DomainEvent}
use platform_engineering_lab.Orders.Cache
use platform_engineering_lab.Orders.Cache.{Redis}
use platform_engineering_lab.Orders.Directory.Samples.{redis_down, directory_config}
use platform_engineering_lab.Orders.Directory.{response, fetch_from, exists, fetch_exists, step_of}
use platform_engineering_lab.Orders.Service
use platform_engineering_lab.Orders.Service.{
  Stamp, create_new, store_and_publish, store_order, publish_created, find_by_key, replay, event_of,
}
use platform_engineering_lab.Orders.Service.Samples.{tables_store, new_order}
use platform_engineering_lab.Orders.Publisher.Message.{json_of, publication_of}
use platform_engineering_lab.Orders.Controller
use platform_engineering_lab.Orders.App.{Incoming, Deployment, State, created_by, post_order}
use platform_engineering_lab.Notifications.Table.{record_event}
use platform_engineering_lab.Notifications.Broker.{Delivery, Channel, ack, count, processed}
use platform_engineering_lab.Notifications.Consumer.{handle_message, start}
use platform_engineering_lab.Notifications.Consumer.Idempotence.{consume}
use platform_engineering_lab.Notifications.Consumer.Samples.{rows_table, open_channel, empty_rows}
use platform_engineering_lab.Contract.{IsTransmitted, HasRow}
use platform_engineering_lab.Journey.{HasArrived, Bears, post_order-notified}

abbrev customer_id : String
customer_id = "00000000-0000-4000-8000-000000000002"

abbrev customer : Principal
customer = record { sub = customer_id; roles = "customer" ∷ [] }

abbrev one_token : String → Result VerifyError Principal
one_token token = if token == "t" then ok customer else throw (token_invalid signature)

abbrev no_limit : RateLimit
no_limit = record {
  Limits = ℕ;
  hit = λ limit address now n. (ltb n limit, n + 1);
  headers = λ limit address now n. [];
}

abbrev up : ProxyOptions → Forward → Proxied
up options request = passed_on 201

abbrev config : GatewayConfig
config = record {
  routes = app_routes "u" "o" "n";
  upstream_timeout_ms = 5000;
  rate_limit_per_minute = 1;
  verifier = one_token;
}

abbrev entrance : Entrance
entrance = record { now = 100; fresh = "req-1" }

abbrev request : Exchange ℕ
request = record {
  original_url = "/v1/orders";
  address = "127.0.0.1";
  request_id = none;
  assigned = none;
  authorization = some "Bearer t";
  started_at = none;
  response = record {
    status_code = 200;
    request_id = none;
    challenge = false;
    rate_limit = [];
    body = none;
    headers_sent = false;
    ended = false;
  };
  label = none;
  limits = 0;
  rejections = [];
  log = [];
  forwarded = [];
}

abbrev sent_on : Forward
sent_on = record {
  original_url = "/v1/orders";
  request_id = some "req-1";
  authorization = some "Bearer t";
}

abbrev lab : Deployment CreateOrderDto
lab = record {
  store = tables_store;
  redis = redis_down;
  config = directory_config;
  users = λ request attempt. response 200;
  Broker = List DomainEvent;
  publish = λ event events. (ok tt, event ∷ events);
  verify = one_token;
  validation_pipe = ok;
  parse_uuid_pipe = ok;
}

abbrev stamp : Stamp
stamp = record {
  event_id = "3fa85f64-5717-4562-b3fc-2c963f66afa6";
  occurred_at = "2026-01-01T00:00:00.000Z";
}

abbrev lamp : CreateOrderDto
lamp = record { user_id = customer_id; amount = 4250; description = "a lamp" }

abbrev incoming : Incoming CreateOrderDto
incoming = record {
  request_id = some "req-1";
  authorization = some "Bearer t";
  idempotency_key = none;
  body = lamp;
  fresh = "other";
  stamp = stamp;
}

abbrev order : Order
order = new_order lamp "CREATED" "00000000-0000-4000-8000-000000000001"

abbrev before : State lab
before = record {
  db = record { keys = []; orders = []; ids = order.id ∷ [] };
  redis = tt;
  broker = [];
  counts = [];
}

abbrev posted : Answer Order × State lab
posted = post_order lab incoming before

not_blank : ◌≡◌ {A = String} "req-1" "" → ⊥
not_blank h = cc

arrived : HasArrived no_limit up config entrance request lab incoming "o" sent_on
unfolding gateway create_gateway request_id limiter router authenticate send_on run_all route_of
    app_routes path_of is_under strip_prefix bearer_token match_prefix is_token
arrived = record {
  at_rest = refl;
  sent = refl;
  authorization = refl;
  id = refl;
  named = not_blank;
  alike = λ token. refl;
}

creates : Unit {0}
unfolding serve can_activate bearer_token match_prefix is_token to_lower_case dec_le gen_req_id
    assert_self_or_admin post_order created_by Controller.create Controller.is_bad_key
    Service.create create_new store_and_publish store_order publish_created find_by_key replay
    event_of exists fetch_exists fetch_from step_of Cache.get Cache.set
creates = tt

created : posted ≡ (replied 201 order, posted.1)
unfolding creates
created = refl

abbrev written : Json → String
written j = "the event"

abbrev read : String → Option Json
read s = some (json_of (event_of stamp "req-1" order))

abbrev dates : String → Option ℕ
dates s = some 1767225600000

transmitted : IsTransmitted written read stamp "req-1" order
unfolding is_uuid
transmitted = record { reads = refl; event_uuid = refl; order_uuid = refl; user_uuid = refl }

abbrev delivery : Delivery
delivery = record {
  content = "the event";
  content_type = some "application/json";
  message_id = some stamp.event_id;
  correlation_id = some "req-1";
  headers = none;
}

-- The broker delivers it again.
abbrev later : List (Delivery × Channel)
later = (delivery, open_channel) ∷ []

post_order-notified_example :
    let s = (handle_message rows_table read 3 open_channel delivery (start (empty_rows []))).1 in
    ((p : Principal) × Bears one_token (some "Bearer t") p
      × ((is_admin p || is_owner p customer_id) ≡ true))
    × (tables_store.order_row posted.1.db order.id
        ≡ some (record order { user_id = to_lower_case customer_id }))
    × (posted.1.broker ≡ event_of stamp "req-1" order ∷ [])
    × (s.actions ≡ ack ∷ count processed ∷ [])
    × HasRow rows_table stamp.event_id order true s.db
    × HasRow rows_table stamp.event_id order true (consume rows_table read 3 later s.db)
unfolding record_event publication_of
post_order-notified_example =
    post_order-notified no_limit up config entrance request lab incoming "o" sent_on arrived written
      dates read rows_table 3 open_channel (λ n. refl) order before posted.1 created transmitted
      delivery (empty_rows []) true later refl refl
