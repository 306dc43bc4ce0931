-- ===== src/Orders/Service.antt =====
-- orders/orders.service.ts. The lookup of users and the publisher are arguments, so that the laws
-- hold for whatever they do; a request brings the id and the time of its event.
pub mod Rows
pub mod Stored
pub mod Laws
pub mod Idempotency
pub mod Ledger
pub mod Samples
mod Tests
use platform_engineering_lab.Prelude.{
  String, Bool, true, false, List, [], ◌∷◌, ◌++◌, Option, none, some, Result, ok, throw, ◌==◌,
  if◌then◌else◌,
}
use platform_engineering_lab.Effects.{Act, ◌>>=◌, ◌>>◌, pure, raise, lift, catch}
use platform_engineering_lab.Auth.Http.{HttpException}
use platform_engineering_lab.Database.Errors.{JsError, is_unique_violation}
use platform_engineering_lab.Database.Filter.{Exception, http, failure}
use platform_engineering_lab.Orders.Types.{
  CreateOrderDto, Order, OrderData, DomainEvent, World, Request, counted, order_created,
  event_publish_failure,
}
use platform_engineering_lab.Orders.Directory.{given}
use platform_engineering_lab.Orders.Store.{OrderStore}

pub record CreateResult : Type 0 where
  pub order : Order
  pub created : Bool

-- randomUUID() and new Date().toISOString() of publishCreated.
pub record Stamp : Type 0 where
  pub event_id : String
  pub occurred_at : String

abbrev pub user_missing : HttpException
user_missing = record { status = 422; message = "User does not exist" }

abbrev pub key_used : HttpException
key_used = record { status = 409; message = "Idempotency-Key was already used" }

abbrev pub order_missing : HttpException
order_missing = record { status = 404; message = "Order not found" }

unfoldable pub replay : Order → CreateOrderDto → Result Exception CreateResult
replay existing dto =
    if existing.user_id == dto.user_id
    then ok (record { order = existing; created = false })
    else throw (http key_used)

unfoldable pub event_of : Stamp → String → Order → DomainEvent
event_of stamp correlation_id order = record {
  event_id = stamp.event_id;
  type_name = "order.created";
  occurred_at = stamp.occurred_at;
  correlation_id = correlation_id;
  payload = record {
    order_id = order.id;
    user_id = order.user_id;
    amount = order.amount;
    description = order.description;
  };
}

-- A call of the database inside a request; an error of the database is thrown on.
abbrev pub as_failure {ℓ} : {A : Type ℓ} → Result JsError A → Result Exception A
as_failure (ok a) = ok a
as_failure (throw e) = throw (failure e)

module _ (store : OrderStore) where
  abbrev pub insert_if_given : Option String → String → Act JsError store.Tx (Unit {0})
  insert_if_given none order_id = pure tt
  insert_if_given (some key) order_id = store.insert_key key order_id

  -- The callback of the transaction.
  unfoldable pub store_order : CreateOrderDto → Option String → Act JsError store.Tx Order
  store_order dto key = do
    saved ← store.save dto "CREATED"
    insert_if_given key saved.id
    pure saved

module _ (store : OrderStore) {Redis Broker : Type 0} where
  abbrev pub on_db :
      {A : Type 0} → (store.Db → Result JsError A × store.Db) → Request store.Db Redis Broker A
  on_db call w = let (r, db') = call w.db in (as_failure r, record w { db = db' })

  -- orders.findOneBy({ id: record.orderId }), if there is a record
  abbrev pub order_of_key : Option String → Request store.Db Redis Broker (Option Order)
  order_of_key none = pure none
  order_of_key (some order_id) = on_db (store.find_order order_id)

  unfoldable pub find_by_key : String → Request store.Db Redis Broker (Option Order)
  find_by_key key = do row ← on_db (store.find_key key); order_of_key row

  abbrev pub or_missing : Option Order → Request store.Db Redis Broker Order
  or_missing none = raise (http order_missing)
  or_missing (some order) = pure order

  unfoldable pub find_one : String → Request store.Db Redis Broker Order
  find_one id = do order ← on_db (store.find_order id); or_missing order

  module _ (publish : DomainEvent → Act JsError Broker (Unit {0})) where
    -- The `catch` block counts the failure and goes on.
    abbrev pub after_publish :
        Result JsError (Unit {0}) → World store.Db Redis Broker → World store.Db Redis Broker
    after_publish (ok done) w = w
    after_publish (throw e) w = counted event_publish_failure w

    unfoldable pub publish_created :
        DomainEvent → World store.Db Redis Broker → World store.Db Redis Broker
    publish_created event w =
        let (r, broker') = publish event w.broker in after_publish r (record w { broker = broker' })

    module _ (exists : String → String → Option String → Request store.Db Redis Broker Bool) where
      -- In the `catch` block: the order that won the race, or the error itself.
      abbrev pub replay_or :
          JsError → CreateOrderDto → Option Order → Request store.Db Redis Broker CreateResult
      replay_or e dto none = raise (failure e)
      replay_or e dto (some existing) = lift (replay existing dto)

      abbrev pub on_conflict :
          Bool → JsError → CreateOrderDto → String → Request store.Db Redis Broker CreateResult
      on_conflict true e dto key = do existing ← find_by_key key; replay_or e dto existing
      on_conflict false e dto key = raise (failure e)

      abbrev pub on_error :
          JsError → CreateOrderDto → Option String → Request store.Db Redis Broker CreateResult
      on_error e dto none = raise (failure e)
      on_error e dto (some key) = on_conflict (is_unique_violation e) e dto key

      -- Behind the transaction.
      abbrev pub finish :
          CreateOrderDto
          → Option String
          → String
          → Stamp
          → Result JsError Order
          → Request store.Db Redis Broker CreateResult
      finish dto key correlation_id stamp (ok order) w = (
        ok (record { order = order; created = true }),
        publish_created (event_of stamp correlation_id order) (counted order_created w),
      )
      finish dto key correlation_id stamp (throw e) w = on_error e dto key w

      unfoldable pub store_and_publish :
          CreateOrderDto
          → Option String
          → String
          → Stamp
          → Request store.Db Redis Broker CreateResult
      store_and_publish dto key correlation_id stamp w =
          let (r, db') = store.transaction (store_order store dto key) w.db in
          finish dto key correlation_id stamp r (record w { db = db' })

      abbrev pub if_exists :
          Bool
          → CreateOrderDto
          → Option String
          → String
          → Stamp
          → Request store.Db Redis Broker CreateResult
      if_exists true dto key correlation_id stamp = store_and_publish dto key correlation_id stamp
      if_exists false dto key correlation_id stamp = raise (http user_missing)

      unfoldable pub create_new :
          CreateOrderDto
          → Option String
          → String
          → Option String
          → Stamp
          → Request store.Db Redis Broker CreateResult
      create_new dto key correlation_id authorization stamp = do
        known ← exists dto.user_id correlation_id authorization
        if_exists known dto key correlation_id stamp

      abbrev pub replay_or_create :
          Option Order
          → CreateOrderDto
          → Option String
          → String
          → Option String
          → Stamp
          → Request store.Db Redis Broker CreateResult
      replay_or_create (some existing) dto key correlation_id authorization stamp =
          lift (replay existing dto)
      replay_or_create none dto key correlation_id authorization stamp =
          create_new dto key correlation_id authorization stamp

      abbrev pub create_with :
          Option String
          → CreateOrderDto
          → String
          → Option String
          → Stamp
          → Request store.Db Redis Broker CreateResult
      create_with none dto correlation_id authorization stamp =
          create_new dto none correlation_id authorization stamp
      create_with (some key) dto correlation_id authorization stamp = do
        existing ← find_by_key key
        replay_or_create existing dto (some key) correlation_id authorization stamp

      -- An empty key counts as none.
      unfoldable pub create :
          CreateOrderDto
          → Option String
          → String
          → Option String
          → Stamp
          → Request store.Db Redis Broker CreateResult
      create dto idempotency_key correlation_id authorization stamp =
          create_with (given idempotency_key) dto correlation_id authorization stamp
