-- ===== src/Orders/Service/Ledger/Tests.antt =====
-- Two customers and three keys, while user-service goes down.
use platform_engineering_lab.Prelude.{
  ◌≡◌, refl, String, List, [], ◌∷◌, none, some, ok, throw, true, false,
}
use native.Mathlib.Decide.{dec_le}
use platform_engineering_lab.Effects.{Act}
use platform_engineering_lab.Js.Text.{to_lower_case}
use platform_engineering_lab.Database.Errors.{JsError}
use platform_engineering_lab.Database.Filter.{http}
use platform_engineering_lab.Orders.Types.{CreateOrderDto, DomainEvent, World}
use platform_engineering_lab.Orders.Cache
use platform_engineering_lab.Orders.Cache.{Redis}
use platform_engineering_lab.Orders.Directory.Samples.{redis_down, directory_config}
use platform_engineering_lab.Orders.Directory.{
  response, failed, fetch_from, UserService, exists, fetch_exists, step_of, lookup_unavailable,
}
use platform_engineering_lab.Orders.Service.{
  create, create_new, store_and_publish, store_order, publish_created, find_by_key, replay,
  event_of, key_used,
}
use platform_engineering_lab.Orders.Service.Samples.{Tables, tables_store, new_order}
use platform_engineering_lab.Orders.Service.Ledger.{Asked, Outcome, OnePerKey, run, run-OnePerKey}

abbrev deliver : DomainEvent → Act JsError (List DomainEvent) (Unit {0})
deliver event sent = (ok tt, event ∷ sent)

abbrev everybody : UserService
everybody request attempt = response 200

abbrev nobody : UserService
nobody request attempt = failed "timeout"

abbrev order_of : String → CreateOrderDto
order_of user_id = record { user_id = user_id; amount = 1250; description = "book" }

abbrev asked_with : String → String → UserService → Asked
asked_with user_id key users = record {
  dto = order_of user_id;
  key = some key;
  correlation_id = "c-1";
  authorization = none;
  stamp = record { event_id = "e-1"; occurred_at = "2024-01-01T00:00:00Z" };
  users = users;
}

-- A new order, a lookup that fails, the same request again, and another user's request under its key.
abbrev morning : List Asked
morning =
    asked_with "ab" "k" everybody
    ∷ asked_with "cd" "j" nobody
    ∷ asked_with "ab" "k" nobody
    ∷ asked_with "cd" "k" everybody
    ∷ []

abbrev empty : World Tables Unit (List DomainEvent)
empty = record {
  db = record { keys = []; orders = []; ids = "o-1" ∷ "o-2" ∷ [] };
  redis = tt;
  broker = [];
  counts = [];
}

abbrev outcomes : List Outcome
outcomes =
    (some "k", ok (record { order = new_order (order_of "ab") "CREATED" "o-1"; created = true }))
    ∷ (some "j", throw (http lookup_unavailable))
    ∷ (some "k", ok (record { order = new_order (order_of "ab") "CREATED" "o-1"; created = false }))
    ∷ (some "k", throw (http key_used))
    ∷ []

morning-run : run tables_store redis_down directory_config deliver morning empty ≡ outcomes
unfolding create create_new store_and_publish store_order publish_created find_by_key replay
    event_of exists fetch_exists fetch_from step_of Cache.get Cache.set to_lower_case dec_le
morning-run = refl

run-OnePerKey_example :
    OnePerKey (run tables_store redis_down directory_config deliver morning empty)
run-OnePerKey_example = run-OnePerKey tables_store redis_down directory_config deliver morning empty
