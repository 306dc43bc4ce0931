-- ===== src/Orders/Service/Tests.antt =====
-- Requests to create an order, first and again, at a concrete store.
use platform_engineering_lab.Prelude.{
  ◌≡◌, ◌≢◌, ◌⊎◌, refl, sym, ◌∙◌, String, Bool, true, false, List, [], ◌∷◌, Option, none, some,
  Result, ok, throw, eq_iff,
}
use native.Mathlib.Decide.{dec_le}
use platform_engineering_lab.Js.Text.{to_lower_case}
use platform_engineering_lab.Effects.{Act}
use platform_engineering_lab.Database.Errors.{JsError}
use platform_engineering_lab.Database.Filter.{Exception, http, failure}
use platform_engineering_lab.Orders.Types.{CreateOrderDto, DomainEvent, World, Request}
use platform_engineering_lab.Orders.Service.{
  CreateResult, Stamp, create, create_new, store_and_publish, store_order, publish_created,
  find_by_key, replay, event_of, key_used,
}
use platform_engineering_lab.Orders.Service.Laws.{Done}
use platform_engineering_lab.Orders.Service.Idempotency.{
  create-Done, create-retry, create-retry_upper,
}
use platform_engineering_lab.Orders.Service.Samples.{Tables, tables_store, new_order}

abbrev Sent : Type 0
Sent = List DomainEvent

abbrev deliver : DomainEvent → Act JsError Sent (Unit {0})
deliver event sent = (ok tt, event ∷ sent)

abbrev everybody : String → String → Option String → Request Tables Unit Sent Bool
everybody user_id request_id authorization w = (ok true, w)

abbrev stamp : Stamp
stamp = record { event_id = "e-1"; occurred_at = "2024-01-01T00:00:00Z" }

abbrev lower : CreateOrderDto
lower = record { user_id = "ab"; amount = 1250; description = "book" }

abbrev upper : CreateOrderDto
upper = record { user_id = "Ab"; amount = 1250; description = "book" }

abbrev empty : World Tables Unit Sent
empty = record {
  db = record { keys = []; orders = []; ids = "o-1" ∷ "o-2" ∷ [] };
  redis = tt;
  broker = [];
  counts = [];
}

abbrev run :
    CreateOrderDto → World Tables Unit Sent → Result Exception CreateResult × World Tables Unit Sent
run dto = create tables_store deliver everybody dto (some "k") "c-1" none stamp

abbrev first_result : CreateOrderDto → CreateResult
first_result dto = record { order = new_order dto "CREATED" "o-1"; created = true }

lower_is_lower : to_lower_case "ab" ≡ "ab"
unfolding to_lower_case dec_le
lower_is_lower = refl

upper_lowered : to_lower_case "Ab" ≡ "ab"
unfolding to_lower_case dec_le
upper_lowered = refl

upper_differs : to_lower_case "Ab" ≢ "Ab"
upper_differs e = cc ((eq_iff "ab" "Ab").1 (sym upper_lowered ∙ e))

service : Unit {0}
unfolding create create_new store_and_publish store_order publish_created find_by_key replay
    event_of
service = tt

created_lower : (run lower empty).0 ≡ ok (first_result lower)
unfolding service
created_lower = refl

announced_once :
    (run lower (run lower empty).1).1.broker
    ≡ event_of stamp "c-1" (new_order lower "CREATED" "o-1") ∷ []
unfolding service to_lower_case dec_le
announced_once = refl

create-Done_example :
    Done tables_store deliver everybody lower "c-1" stamp
      (some "k")
      []
      (first_result lower)
      (run lower empty).1
unfolding service
create-Done_example =
    create-Done tables_store deliver everybody lower "c-1" stamp none (λ u c a w. refl) (some "k")
      empty (run lower empty).1 (first_result lower) refl

create-retry_example :
    ((run lower (run lower empty).1).1.broker ≡ (run lower empty).1.broker)
    × (((run lower (run lower empty).1).0
          ≡ ok (record { order = new_order lower "CREATED" "o-1"; created = false }))
        ⊎ ((e : JsError) × ((run lower (run lower empty).1).0 ≡ throw (failure e))))
unfolding service to_lower_case dec_le
create-retry_example =
    create-retry tables_store deliver everybody "c-1" stamp none (λ u c a w. refl) "k" refl lower
      empty (run lower empty).1 (first_result lower) refl refl (run lower empty).1
      (run lower (run lower empty).1).1 (run lower (run lower empty).1).0
      (record { keys = λ k id h. h; orders = λ i o h. h }) refl refl

create-retry_upper_example :
    ((run upper (run upper empty).1).0 ≡ throw (http key_used))
    ⊎ ((e : JsError) × ((run upper (run upper empty).1).0 ≡ throw (failure e)))
unfolding service to_lower_case dec_le
create-retry_upper_example =
    create-retry_upper tables_store deliver everybody "c-1" stamp none (λ u c a w. refl) "k" refl
      upper empty (run upper empty).1 (first_result upper) refl refl (run upper empty).1
      (run upper (run upper empty).1).1 (run upper (run upper empty).1).0
      (record { keys = λ k id h. h; orders = λ i o h. h }) refl upper_differs
