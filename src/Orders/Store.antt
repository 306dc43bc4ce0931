-- ===== src/Orders/Store.antt =====
-- The tables orders and idempotency_keys of order-service, with their migration
-- (migrations/1700000000000-create-orders.ts, orders/idempotency-key.entity.ts). PostgreSQL and
-- TypeORM are not part of the repository: their calls are a parameter, with what they document.
-- Any call may fail, and other requests may run before it: nothing here deletes or updates rows, so
-- what the others do only adds to the two tables.
use platform_engineering_lab.Prelude.{◌≡◌, String, Option, some, Result, ok}
use platform_engineering_lab.Js.Text.{to_lower_case}
use platform_engineering_lab.Database.Errors.{JsError}
use platform_engineering_lab.Orders.Types.{CreateOrderDto, Order}

pub record OrderStore : Type 1 where
  -- the committed tables, and the connection's state
  pub Db : Type 0
  -- a transaction that is open
  pub Tx : Type 0
  pub key_row : Db → String → Option String
  pub order_row : Db → String → Option Order
  pub tx_key_row : Tx → String → Option String
  pub tx_order_row : Tx → String → Option Order
  -- keys.findOneBy({ key }), the order id of the row; orders.findOneBy({ id })
  pub find_key : String → Db → Result JsError (Option String) × Db
  pub find_order : String → Db → Result JsError (Option Order) × Db
  -- m.save(m.create(Order, …)); m.insert(IdempotencyKey, { key, orderId })
  pub save : CreateOrderDto → String → Tx → Result JsError Order × Tx
  pub insert_key : String → String → Tx → Result JsError (Unit {0}) × Tx
  -- dataSource.transaction(…)
  pub transaction : (Tx → Result JsError Order × Tx) → Db → Result JsError Order × Db
  -- a query reads the committed tables
  pub find_key_reads :
      (k : String) (db db' : Db) (found : Option String)
      → find_key k db ≡ (ok found, db')
      → found ≡ key_row db' k
  pub find_order_reads :
      (id : String) (db db' : Db) (found : Option Order)
      → find_order id db ≡ (ok found, db')
      → found ≡ order_row db' id
  -- no row is lost, whether a call succeeds or not
  pub find_key_keeps_keys :
      (k : String) (db : Db) (j id : String)
      → key_row db j ≡ some id
      → key_row (find_key k db).1 j ≡ some id
  pub find_key_keeps_orders :
      (k : String) (db : Db) (i : String) (o : Order)
      → order_row db i ≡ some o
      → order_row (find_key k db).1 i ≡ some o
  pub find_order_keeps_keys :
      (i : String) (db : Db) (k id : String)
      → key_row db k ≡ some id
      → key_row (find_order i db).1 k ≡ some id
  pub find_order_keeps_orders :
      (k : String) (db : Db) (i : String) (o : Order)
      → order_row db i ≡ some o
      → order_row (find_order k db).1 i ≡ some o
  -- `save` returns the new row with the fields that it was given; the type UUID reads back in lower
  -- case
  pub save_fields :
      (dto : CreateOrderDto) (status : String) (tx tx' : Tx) (o : Order)
      → save dto status tx ≡ (ok o, tx')
      → (o.user_id ≡ dto.user_id)
        × (o.amount ≡ dto.amount)
        × (o.description ≡ dto.description)
        × (o.status ≡ status)
        × (tx_order_row tx' o.id ≡ some (record o { user_id = to_lower_case o.user_id }))
  pub insert_key_row :
      (k id : String) (tx tx' : Tx) → insert_key k id tx ≡ (ok tt, tx') → tx_key_row tx' k ≡ some id
  -- so does a transaction whose body only adds rows, whether it is committed or not
  pub save_keeps_keys :
      (dto : CreateOrderDto) (status : String) (tx : Tx) (k id : String)
      → tx_key_row tx k ≡ some id
      → tx_key_row (save dto status tx).1 k ≡ some id
  pub save_keeps_orders :
      (dto : CreateOrderDto) (status : String) (tx : Tx) (i : String) (o : Order)
      → tx_order_row tx i ≡ some o
      → tx_order_row (save dto status tx).1 i ≡ some o
  pub insert_key_keeps_keys :
      (k id : String) (tx : Tx) (j i : String)
      → tx_key_row tx j ≡ some i
      → tx_key_row (insert_key k id tx).1 j ≡ some i
  pub insert_key_keeps_orders :
      (k id : String) (tx : Tx) (i : String) (o : Order)
      → tx_order_row tx i ≡ some o
      → tx_order_row (insert_key k id tx).1 i ≡ some o
  pub transaction_keeps_keys :
      (body : Tx → Result JsError Order × Tx)
      → ((tx : Tx) (k id : String) → tx_key_row tx k ≡ some id → tx_key_row (body tx).1 k ≡ some id)
      → (db : Db) (k id : String) → key_row db k ≡ some id
      → key_row (transaction body db).1 k ≡ some id
  pub transaction_keeps_orders :
      (body : Tx → Result JsError Order × Tx)
      → ((tx : Tx) (i : String) (o : Order)
          → tx_order_row tx i ≡ some o
          → tx_order_row (body tx).1 i ≡ some o)
      → (db : Db) (i : String) (o : Order) → order_row db i ≡ some o
      → order_row (transaction body db).1 i ≡ some o
  -- a transaction that returns has run its body, and committed its rows
  pub committed :
      (body : Tx → Result JsError Order × Tx) (db db' : Db) (o : Order)
      → transaction body db ≡ (ok o, db')
      → (tx : Tx) × (tx' : Tx) × (body tx ≡ (ok o, tx'))
        × ((k id : String) → tx_key_row tx' k ≡ some id → key_row db' k ≡ some id)
        × ((i : String) (p : Order) → tx_order_row tx' i ≡ some p → order_row db' i ≡ some p)
