-- ===== src/UserLookup/Tests.antt =====
-- A customer who orders while user-service is slow.
use native.Mathlib.Decide.{dec_le}
use platform_engineering_lab.Prelude.{
  ℕ, ◌≡◌, ◌↔◌, ◌⊎◌, refl, String, true, false, [], ◌∷◌, some, Result, ok, throw, ◌==◌,
  if◌then◌else◌, eqb, List, none,
}
use platform_engineering_lab.Js.Text.{strip_prefix, to_lower_case}
use platform_engineering_lab.Js.Pattern.{match_prefix, is_token}
use platform_engineering_lab.Auth.Verifier.{Principal, VerifyError, token_invalid, signature}
use platform_engineering_lab.Auth.Guard.{bearer_token, can_activate}
use platform_engineering_lab.Auth.Guard.Laws.{IsAuthorized}
use platform_engineering_lab.Auth.Ownership.{assert_self_or_admin}
use platform_engineering_lab.Pipeline.{serve}
use platform_engineering_lab.Pipeline.{replied}
use platform_engineering_lab.Upstream.{gen_req_id}
use platform_engineering_lab.Orders.Types.{CreateOrderDto, Order, DomainEvent}
use platform_engineering_lab.Orders.App as Orders
use platform_engineering_lab.Orders.App.{Incoming, created_by, post_order}
use platform_engineering_lab.Orders.Controller as OrdersController
use platform_engineering_lab.Orders.Service as OrdersService
use platform_engineering_lab.Orders.Service.{
  create_new, store_and_publish, store_order, publish_created, find_by_key, replay, event_of,
}
use platform_engineering_lab.Orders.Service.Samples.{tables_store, new_order}
use platform_engineering_lab.UserLookup.Orders.{IsVouched, post_order-IsVouched}
use platform_engineering_lab.Users.Samples.{new_user, user_rows}
use platform_engineering_lab.Users.Service
use platform_engineering_lab.Users.Service.{CreateUserDto}
use platform_engineering_lab.Users.Controller
use platform_engineering_lab.Users.Controller.{find_one_route}
use platform_engineering_lab.Users.App.{State, Deployment, shown_to, get_user}
use platform_engineering_lab.Orders.Types.{World}
use platform_engineering_lab.Orders.Cache
use platform_engineering_lab.Orders.Cache.{Redis}
use platform_engineering_lab.Orders.Directory.Samples.{redis_down, directory_config}
use platform_engineering_lab.Orders.Directory.{fetch_from, step_of, fetch_exists, exists}
use platform_engineering_lab.UserLookup.{Attempt, user_service, Finds, Misses, Fails}
use platform_engineering_lab.UserLookup.Laws.{exists_iff}

abbrev customer : Principal
customer = record { sub = "ab"; roles = "customer" ∷ [] }

abbrev one_token : String → Result VerifyError Principal
one_token token = if token == "t" then ok customer else throw (token_invalid signature)

abbrev lab : Deployment CreateUserDto
lab = record { table = user_rows; verify = one_token; validation_pipe = ok; parse_uuid_pipe = ok }

abbrev one_user : State user_rows
one_user = record {
  db = ("ab", new_user (record { id = "ab"; email = "ann@example.org"; name = "Ann" })) ∷ [];
  rejections = [];
  outages = 0;
}

-- The first request times out.
abbrev slow : ℕ → Attempt lab directory_config
slow n = if eqb n 1 then throw "The operation was aborted due to timeout" else ok one_user

abbrev before : World Unit Unit Unit
before = record { db = tt; redis = tt; broker = tt; counts = [] }

found_at_second :
    (exists redis_down directory_config
      (user_service lab directory_config slow)
      "ab"
      "c-1"
      (some "Bearer t")
      before).0
    ≡ ok true
unfolding exists fetch_exists fetch_from step_of Cache.get Cache.set strip_prefix serve can_activate
    bearer_token match_prefix is_token to_lower_case dec_le assert_self_or_admin get_user shown_to
    Controller.find_one Service.find_one
found_at_second = refl

customer_served : IsAuthorized one_token find_one_route (some "Bearer t") customer
unfolding bearer_token match_prefix is_token
customer_served = record { token = "t"; carried = refl; verified = refl; role = refl }

own_id : (customer.sub == to_lower_case "ab") ≡ true
unfolding to_lower_case dec_le
own_id = refl

exists_iff_example :
    let answer =
      (exists redis_down directory_config
        (user_service lab directory_config slow)
        "ab"
        "c-1"
        (some "Bearer t")
        before).0 in
    ((answer ≡ ok true) ↔ (
      Finds lab directory_config "ab" (slow 1)
      ⊎ (Fails lab directory_config "ab" (slow 1) × Finds lab directory_config "ab" (slow 2))))
    × ((answer ≡ ok false) ↔ (
        Misses lab directory_config "ab" (slow 1)
        ⊎ (Fails lab directory_config "ab" (slow 1) × Misses lab directory_config "ab" (slow 2))))
unfolding Cache.get
exists_iff_example =
    exists_iff lab directory_config redis_down before "c-1" slow (some "Bearer t") "ab" customer
      customer_served refl own_id refl

abbrev orders : Orders.Deployment CreateOrderDto
orders = record {
  store = tables_store;
  redis = redis_down;
  config = directory_config;
  users = user_service lab directory_config slow;
  Broker = List DomainEvent;
  publish = λ event events. (ok tt, event ∷ events);
  verify = one_token;
  validation_pipe = ok;
  parse_uuid_pipe = ok;
}

abbrev book : CreateOrderDto
book = record { user_id = "ab"; amount = 1250; description = "book" }

abbrev incoming : Incoming CreateOrderDto
incoming = record {
  request_id = some "c-1";
  authorization = some "Bearer t";
  idempotency_key = none;
  body = book;
  fresh = "c-2";
  stamp = record { event_id = "e-1"; occurred_at = "2024-01-01T00:00:00Z" };
}

abbrev opening : Orders.State orders
opening = record {
  db = record { keys = []; orders = []; ids = "o-1" ∷ [] };
  redis = tt;
  broker = [];
  counts = [];
}

abbrev order : Order
order = new_order book "CREATED" "o-1"

ordered :
    post_order orders incoming opening ≡ (replied 201 order, (post_order orders incoming opening).1)
unfolding exists fetch_exists fetch_from step_of Cache.get Cache.set strip_prefix serve can_activate
    bearer_token match_prefix is_token to_lower_case dec_le assert_self_or_admin get_user shown_to
    Controller.find_one Service.find_one gen_req_id post_order created_by OrdersController.create
    OrdersController.is_bad_key OrdersService.create create_new store_and_publish store_order
    publish_created find_by_key replay event_of
ordered = refl

post_order-IsVouched_example : IsVouched lab orders slow opening "ab"
post_order-IsVouched_example =
    post_order-IsVouched lab orders slow incoming order opening
      (post_order orders incoming opening).1 (record { asks = refl; alike = λ token. refl }) refl
      ordered
