-- ===== src/Orders/App/Tests.antt =====
-- Requests to order-service: with a token, without one, and of a stranger.
use native.Mathlib.Decide.{dec_le}
use platform_engineering_lab.Prelude.{
  ◌≡◌, refl, inl, String, true, false, ◌||◌, List, [], ◌∷◌, Option, none, some, Result, ok, throw,
  ◌==◌, if◌then◌else◌,
}
use platform_engineering_lab.Js.Text.{to_lower_case}
use platform_engineering_lab.Js.Pattern.{match_prefix, is_token}
use platform_engineering_lab.Auth.Verifier.{Principal, VerifyError, token_invalid, signature}
use platform_engineering_lab.Auth.Guard.{bearer_token, can_activate}
use platform_engineering_lab.Auth.Ownership.{
  is_admin, is_owner, assert_self_or_admin, owner_or_not_found,
}
use platform_engineering_lab.Database.Filter.{filter_exception}
use platform_engineering_lab.Pipeline.{Answer, replied, refused, serve}
use platform_engineering_lab.Pipeline.Laws.{IsTurnedAway}
use platform_engineering_lab.Upstream.{gen_req_id}
use platform_engineering_lab.Orders.Types.{CreateOrderDto, Order, DomainEvent}
use platform_engineering_lab.Orders.Cache
use platform_engineering_lab.Orders.Cache.{Redis}
use platform_engineering_lab.Orders.Directory.Samples.{redis_down, directory_config}
use platform_engineering_lab.Orders.Directory.{response, fetch_from, exists, fetch_exists, step_of}
use platform_engineering_lab.Orders.Service
use platform_engineering_lab.Orders.Service.{
  Stamp, create_new, store_and_publish, store_order, publish_created, find_by_key, replay, event_of,
  order_missing,
}
use platform_engineering_lab.Orders.Service.Samples.{tables_store, new_order}
use platform_engineering_lab.Orders.Controller
use platform_engineering_lab.Orders.App.{
  Incoming, Deployment, State, created_by, post_order, shown_to, get_order,
}
use platform_engineering_lab.Orders.App.Laws.{
  IsServed, Outcome, IsUntouched, post_order-replies, unserved-IsUntouched, get_order-hidden,
}

-- The token is the name of the user.
abbrev two_tokens : String → Result VerifyError Principal
two_tokens token =
    if token == "ab"
    then ok (record { sub = "ab"; roles = "customer" ∷ [] })
    else if token == "cd"
    then ok (record { sub = "cd"; roles = "customer" ∷ [] })
    else throw (token_invalid signature)

abbrev lab : Deployment CreateOrderDto
lab = record {
  store = tables_store;
  redis = redis_down;
  config = directory_config;
  users = λ request attempt. response 200;
  Broker = List DomainEvent;
  publish = λ event events. (ok tt, event ∷ events);
  verify = two_tokens;
  validation_pipe = ok;
  parse_uuid_pipe = ok;
}

abbrev incoming : {B : Type 0} → Option String → B → Incoming B
incoming authorization body = record {
  request_id = some "c-1";
  authorization = authorization;
  idempotency_key = none;
  body = body;
  fresh = "c-2";
  stamp = record { event_id = "e-1"; occurred_at = "2024-01-01T00:00:00Z" };
}

abbrev book : CreateOrderDto
book = record { user_id = "ab"; amount = 1250; description = "book" }

abbrev order : Order
order = new_order book "CREATED" "o-1"

abbrev before : State lab
before = record {
  db = record { keys = []; orders = []; ids = "o-1" ∷ [] };
  redis = tt;
  broker = [];
  counts = [];
}

abbrev posted : Answer Order × State lab
posted = post_order lab (incoming (some "Bearer ab") book) before

abbrev asked : Option String → Incoming String
asked authorization = incoming authorization "o-1"

guarded : Unit {0}
unfolding serve can_activate bearer_token match_prefix is_token to_lower_case dec_le gen_req_id
    assert_self_or_admin owner_or_not_found filter_exception
guarded = tt

creates : Unit {0}
unfolding post_order created_by Controller.create Controller.is_bad_key Service.create create_new
    store_and_publish store_order publish_created find_by_key replay event_of exists fetch_exists
    fetch_from step_of Cache.get Cache.set
creates = tt

looks_up : Unit {0}
unfolding get_order shown_to Controller.find_one Service.find_one
looks_up = tt

created_order : posted.0 ≡ replied 201 order
unfolding guarded creates
created_order = refl

stranger_sees_none :
    (get_order lab (asked (some "Bearer cd")) posted.1).0 ≡ refused order_missing false
unfolding guarded creates looks_up
stranger_sees_none = refl

post_order-replies_example :
    (p : Principal) × IsServed lab (some "Bearer ab") p
    × ((is_admin p || is_owner p "ab") ≡ true)
    × Outcome lab (incoming (some "Bearer ab") book) before 201 order posted.1
unfolding guarded creates
post_order-replies_example =
    post_order-replies lab (incoming (some "Bearer ab") book) 201 order before posted.1 refl

no_token : (p : Principal) → IsServed lab none p → ⊥
unfolding guarded
no_token p served = cc (served.carried)

unserved-IsUntouched_example :
    (IsTurnedAway (post_order lab (incoming none book) before).0
      × IsUntouched lab before (post_order lab (incoming none book) before).1)
    × (IsTurnedAway (get_order lab (asked none) before).0
        × IsUntouched lab before (get_order lab (asked none) before).1)
unserved-IsUntouched_example =
    unserved-IsUntouched lab (incoming none book) (asked none) no_token no_token before

cd-IsServed : IsServed lab (some "Bearer cd") (record { sub = "cd"; roles = "customer" ∷ [] })
unfolding guarded
cd-IsServed = record { token = "cd"; carried = refl; verified = refl; role = refl }

get_order-hidden_example :
    (get_order lab (asked (some "Bearer cd")) posted.1).0 ≡ refused order_missing false
unfolding guarded creates looks_up
get_order-hidden_example =
    get_order-hidden lab (asked (some "Bearer cd")) (record { sub = "cd"; roles = "customer" ∷ [] })
      "o-1" order posted.1 cd-IsServed refl refl (inl refl)
