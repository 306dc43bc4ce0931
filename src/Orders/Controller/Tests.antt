-- ===== src/Orders/Controller/Tests.antt =====
-- Callers of the controller, at a concrete store.
use native.Mathlib.Decide.{dec_le}
use platform_engineering_lab.Prelude.{
  ◌≡◌, refl, String, Bool, true, List, [], ◌∷◌, Option, none, some, Result, ok,
}
use platform_engineering_lab.Js.Text.{to_lower_case}
use platform_engineering_lab.Effects.{Act}
use platform_engineering_lab.Auth.Verifier.{Principal}
use platform_engineering_lab.Auth.Ownership.{owner_or_not_found}
use platform_engineering_lab.Database.Errors.{JsError}
use platform_engineering_lab.Database.Filter.{Exception}
use platform_engineering_lab.Orders.Types.{CreateOrderDto, Order, DomainEvent, World, Request}
use platform_engineering_lab.Orders.Service
use platform_engineering_lab.Orders.Service.{
  Stamp, order_missing, create_new, store_and_publish, store_order, publish_created, find_by_key,
  replay, event_of,
}
use platform_engineering_lab.Orders.Service.Samples.{Tables, tables_store, new_order}
use platform_engineering_lab.Orders.Controller.{Reply, find_one, create, is_bad_key}

abbrev deliver : DomainEvent → Act JsError (List DomainEvent) (Unit {0})
deliver event events = (ok tt, event ∷ events)

abbrev everybody : String → String → Option String → Request Tables Unit (List DomainEvent) Bool
everybody user_id request_id authorization w = (ok true, w)

abbrev stamp : Stamp
stamp = record { event_id = "e-1"; occurred_at = "2024-01-01T00:00:00Z" }

abbrev book : CreateOrderDto
book = record { user_id = "ab"; amount = 1250; description = "book" }

abbrev order : Order
order = new_order book "CREATED" "o-1"

abbrev customer : String → Principal
customer sub = record { sub = sub; roles = "customer" ∷ [] }

abbrev before : World Tables Unit (List DomainEvent)
before = record {
  db = record { keys = []; orders = []; ids = "o-1" ∷ [] };
  redis = tt;
  broker = [];
  counts = [];
}

abbrev after : World Tables Unit (List DomainEvent)
after = record before { db = record { keys = []; orders = ("o-1", order) ∷ []; ids = [] } }

abbrev created : Result Exception Reply × World Tables Unit (List DomainEvent)
created = create tables_store deliver everybody (customer "ab") book none "c-1" none stamp before

abbrev reply : Reply
reply = (201, order)

own_order : (find_one tables_store (customer "ab") "o-1" after).0 ≡ ok order
unfolding find_one Service.find_one owner_or_not_found to_lower_case dec_le
own_order = refl

key_lengths : is_bad_key (some "") ≡ true
unfolding is_bad_key
key_lengths = refl
