-- ===== src/Orders/Service/Rows.antt =====
-- What a request to create an order does to the rows that are there.
use platform_engineering_lab.Prelude.{
  ◌≡◌, String, Bool, true, false, Option, none, some, Result, ok, throw,
}
use platform_engineering_lab.Effects.{bind-keeps, Act, ◌>>=◌, ◌>>◌, pure, lift}
use platform_engineering_lab.Database.Errors.{JsError, is_unique_violation}
use platform_engineering_lab.Database.Filter.{Exception}
use platform_engineering_lab.Orders.Types.{
  CreateOrderDto, Order, DomainEvent, World, Request, counted, order_created,
}
use platform_engineering_lab.Orders.Directory.{given}
use platform_engineering_lab.Orders.Store.{OrderStore}
use platform_engineering_lab.Orders.Service.{
  Stamp, replay, on_db, insert_if_given, store_order, order_of_key, find_by_key, event_of,
  after_publish, publish_created, replay_or, on_conflict, finish, store_and_publish, if_exists,
  create_new, replay_or_create, create_with, create,
}

module _ (store : OrderStore) where
  -- Later tables, with every row that there was.
  pub record IsLater (db db' : store.Db) : Type 0 where
    pub keys : (k id : String) → store.key_row db k ≡ some id → store.key_row db' k ≡ some id
    pub orders :
        (id : String) (o : Order) → store.order_row db id ≡ some o → store.order_row db' id ≡ some o

  pub IsLater-refl : (db : store.Db) → IsLater db db
  IsLater-refl db = record { keys = λ k id h. h; orders = λ i o h. h }

  pub IsLater-trans : (a b c : store.Db) → IsLater a b → IsLater b c → IsLater a c
  IsLater-trans a b c first second = record {
    keys = λ k id h. second.keys k id (first.keys k id h);
    orders = λ i o h. second.orders i o (first.orders i o h);
  }

  -- The callback of the transaction keeps what `save` and `insert_key` keep.
  store_order-keeps :
      (P : store.Tx → Type 0)
      → ((dto : CreateOrderDto) (status : String) (tx : store.Tx)
          → P tx
          → P (store.save dto status tx).1)
      → ((k id : String) (tx : store.Tx) → P tx → P (store.insert_key k id tx).1)
      → (dto : CreateOrderDto) (key : Option String) (tx : store.Tx) → P tx
      → P (store_order store dto key tx).1
  unfolding store_order
  store_order-keeps P saves inserts dto key tx p =
      bind-keeps P (store.save dto "CREATED") (λ o. insert_if_given store key o.id >> pure o)
        (saves dto "CREATED")
        (λ o.
          bind-keeps P (insert_if_given store key o.id) (λ u. pure o) (inserted key o.id)
            (λ u s q. q))
        tx p
    where
      inserted :
          (key : Option String) (id : String) (tx : store.Tx)
          → P tx
          → P (insert_if_given store key id tx).1
      inserted none id tx q = q
      inserted (some k) id tx q = inserts k id tx q

  transaction-IsLater :
      (dto : CreateOrderDto) (key : Option String) (db : store.Db)
      → IsLater db (store.transaction (store_order store dto key) db).1
  transaction-IsLater dto key db = record {
    keys =
        store.transaction_keeps_keys (store_order store dto key)
          (λ tx k id.
            store_order-keeps (λ t. store.tx_key_row t k ≡ some id)
              (λ d s t. store.save_keeps_keys d s t k id)
              (λ j i t. store.insert_key_keeps_keys j i t k id) dto key tx)
          db;
    orders =
        store.transaction_keeps_orders (store_order store dto key)
          (λ tx i o.
            store_order-keeps (λ t. store.tx_order_row t i ≡ some o)
              (λ d s t. store.save_keeps_orders d s t i o)
              (λ j k t. store.insert_key_keeps_orders j k t i o) dto key tx)
          db;
  }

module _ (store : OrderStore) {Redis Broker : Type 0} where
  -- A request that only adds rows.
  abbrev pub Adds : {A : Type 0} → Request store.Db Redis Broker A → Type 0
  Adds m =
      (old : store.Db) (w : World store.Db Redis Broker)
      → IsLater store old w.db
      → IsLater store old (m w).1.db

  bind-Adds :
      {A B : Type 0} (m : Request store.Db Redis Broker A) (f : A → Request store.Db Redis Broker B)
      → Adds m
      → ((a : A) → Adds (f a))
      → Adds (m >>= f)
  bind-Adds m f one two old =
      bind-keeps (λ w. IsLater store old w.db) m f (one old) (λ a. two a old)

  lift-Adds : {A : Type 0} (r : Result Exception A) → Adds (lift r)
  lift-Adds r old w later = later

  find_by_key-Adds : (k : String) → Adds (find_by_key store k)
  unfolding find_by_key
  find_by_key-Adds k =
      bind-Adds (on_db store (store.find_key k)) (order_of_key store)
        (λ old w later. IsLater-trans store old w.db (store.find_key k w.db).1 later (record {
          keys = store.find_key_keeps_keys k w.db;
          orders = store.find_key_keeps_orders k w.db;
        }))
        read
    where
      read : (row : Option String) → Adds (order_of_key store row)
      read none old w later = later
      read (some id) old w later =
          IsLater-trans store old w.db (store.find_order id w.db).1 later (record {
            keys = store.find_order_keeps_keys id w.db;
            orders = store.find_order_keeps_orders id w.db;
          })

module _ (store : OrderStore) {Redis Broker : Type 0}
    (publish : DomainEvent → Act JsError Broker (Unit {0}))
    (exists : String → String → Option String → Request store.Db Redis Broker Bool)
    (asks : (u c : String) (a : Option String) → Adds store (exists u c a)) (dto : CreateOrderDto)
    (correlation_id : String) (stamp : Stamp) where
  replay_or-Adds :
      (e : JsError) (found : Option Order) → Adds store (replay_or store publish exists e dto found)
  replay_or-Adds e none = λ old w later. later
  replay_or-Adds e (some existing) = lift-Adds store (replay existing dto)

  on_conflict-Adds :
      (unique : Bool) (e : JsError) (key : String)
      → Adds store (on_conflict store publish exists unique e dto key)
  on_conflict-Adds true e key =
      bind-Adds store (find_by_key store key) (replay_or store publish exists e dto)
        (find_by_key-Adds store key) (replay_or-Adds e)
  on_conflict-Adds false e key = λ old w later. later

  published :
      (event : DomainEvent) (old : store.Db) (w : World store.Db Redis Broker)
      → IsLater store old w.db
      → IsLater store old (publish_created store publish event w).db
  unfolding publish_created
  published event old w later = counts_only (publish event w.broker).0
    where
      counts_only :
          (r : Result JsError (Unit {0}))
          → IsLater store old
              (after_publish store publish r (record w { broker = (publish event w.broker).1 })).db
      counts_only (ok done) = later
      counts_only (throw e) = later

  finish-Adds :
      (key : Option String) (r : Result JsError Order)
      → Adds store (finish store publish exists dto key correlation_id stamp r)
  finish-Adds key (ok order) = λ old w later.
      published (event_of stamp correlation_id order) old (counted order_created w) later
  finish-Adds none (throw e) = λ old w later. later
  finish-Adds (some key) (throw e) = on_conflict-Adds (is_unique_violation e) e key

  store_and_publish-Adds :
      (key : Option String)
      → Adds store (store_and_publish store publish exists dto key correlation_id stamp)
  unfolding store_and_publish
  store_and_publish-Adds key old w later =
      let (r, db') = store.transaction (store_order store dto key) w.db in
      finish-Adds key r old (record w { db = db' })
        (IsLater-trans store old w.db db' later (transaction-IsLater store dto key w.db))

  create_new-Adds :
      (key : Option String) (authorization : Option String)
      → Adds store (create_new store publish exists dto key correlation_id authorization stamp)
  unfolding create_new
  create_new-Adds key authorization =
      bind-Adds store (exists dto.user_id correlation_id authorization)
        (λ known. if_exists store publish exists known dto key correlation_id stamp)
        (asks dto.user_id correlation_id authorization) next
    where
      next :
          (known : Bool)
          → Adds store (if_exists store publish exists known dto key correlation_id stamp)
      next true = store_and_publish-Adds key
      next false = λ old w later. later

  create_with-Adds :
      (key : Option String) (authorization : Option String)
      → Adds store (create_with store publish exists key dto correlation_id authorization stamp)
  create_with-Adds none authorization = create_new-Adds none authorization
  create_with-Adds (some k) authorization =
      bind-Adds store (find_by_key store k)
        (λ o.
          replay_or_create store publish exists o dto (some k) correlation_id authorization stamp)
        (find_by_key-Adds store k) next
    where
      next :
          (existing : Option Order)
          → Adds store (
              replay_or_create store publish exists existing dto
                (some k)
                correlation_id
                authorization
                stamp)
      next none = create_new-Adds (some k) authorization
      next (some existing) = lift-Adds store (replay existing dto)

  -- Whatever a request to create an order comes to, no row of the tables is lost by it.
  pub create-Adds :
      (key : Option String) (authorization : Option String)
      → Adds store (create store publish exists dto key correlation_id authorization stamp)
  unfolding create
  create-Adds key authorization = create_with-Adds (given key) authorization
