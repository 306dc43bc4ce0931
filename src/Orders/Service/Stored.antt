-- ===== src/Orders/Service/Stored.antt =====
-- What the transaction of a new order stores, and what a key leads to.
use platform_engineering_lab.Prelude.{
  ◌≡◌, sym, ap, subst, ◌∙◌, String, false, Option, none, some, Result, ok, throw, eq_iff, arith,
}
use platform_engineering_lab.Effects.{bind-eq-ok, ◌>>◌, pure}
use platform_engineering_lab.Js.Text.{to_lower_case}
use platform_engineering_lab.Database.Errors.{JsError}
use platform_engineering_lab.Database.Filter.{Exception}
use platform_engineering_lab.Orders.Types.{CreateOrderDto, Order, World}
use platform_engineering_lab.Orders.Store.{OrderStore}
use platform_engineering_lab.Orders.Service.{
  CreateResult, replay, find_by_key, order_of_key, on_db, as_failure, insert_if_given, store_order,
}

pub replay-user :
    (existing : Order) (dto : CreateOrderDto) (r : CreateResult)
    → replay existing dto ≡ ok r
    → (r.order.user_id ≡ dto.user_id) × (r.created ≡ false) × (r.order ≡ existing)
unfolding replay
replay-user existing dto r h = ground (arith, eq_iff existing.user_id dto.user_id)

-- A row as the database reads it back.
abbrev pub stored : Order → Order
stored o = record o { user_id = to_lower_case o.user_id }

-- The order is new, with the data of the request.
pub record IsNew (dto : CreateOrderDto) (o : Order) : Type 0 where
  pub user_id : o.user_id ≡ dto.user_id
  pub amount : o.amount ≡ dto.amount
  pub description : o.description ≡ dto.description
  pub status : o.status ≡ "CREATED"

-- The key's row, if there is a key.
abbrev pub HasKey : (String → Option String) → Option String → String → Type 0
HasKey row none id = Unit
HasKey row (some k) id = row k ≡ some id

module _ (store : OrderStore) where
  -- The body of the transaction stores the order and, with a key, the key's row.
  store_order-stores :
      (dto : CreateOrderDto) (key : Option String) (tx tx' : store.Tx) (o : Order)
      → store_order store dto key tx ≡ (ok o, tx')
      → IsNew dto o
        × (store.tx_order_row tx' o.id ≡ some (stored o))
        × HasKey (store.tx_key_row tx') key o.id
  unfolding store_order
  store_order-stores dto none tx tx' o h =
      let (saved, tx₁, e, h₁) =
        bind-eq-ok (store.save dto "CREATED") (λ x. insert_if_given store none x.id >> pure x) tx
          h in
      let (u, a, d, s, row) = store.save_fields dto "CREATED" tx tx₁ saved e in
      let same : saved ≡ o = cc in
      let last : tx₁ ≡ tx' = cc in
      (
        record {
          user_id = ap (λ x. x.user_id) (sym same) ∙ u;
          amount = ap (λ x. x.amount) (sym same) ∙ a;
          description = ap (λ x. x.description) (sym same) ∙ d;
          status = ap (λ x. x.status) (sym same) ∙ s;
        },
        rw (← same, ← last) row,
        tt,
      )
  store_order-stores dto (some k) tx tx' o h =
      let (saved, tx₁, e, h₁) =
        bind-eq-ok (store.save dto "CREATED") (λ x. insert_if_given store (some k) x.id >> pure x)
          tx h in
      let (u, a, d, s, row) = store.save_fields dto "CREATED" tx tx₁ saved e in
      let (done, tx₂, e₂, h₂) = bind-eq-ok (store.insert_key k saved.id) (λ u. pure saved) tx₁ h₁ in
      let same : saved ≡ o = cc in
      let last : tx₂ ≡ tx' = cc in
      (
        record {
          user_id = ap (λ x. x.user_id) (sym same) ∙ u;
          amount = ap (λ x. x.amount) (sym same) ∙ a;
          description = ap (λ x. x.description) (sym same) ∙ d;
          status = ap (λ x. x.status) (sym same) ∙ s;
        },
        rw (← same, ← last)
            (subst (λ p. store.tx_order_row p.1 saved.id ≡ some (stored saved)) e₂
              (store.insert_key_keeps_orders k saved.id tx₁ saved.id (stored saved) row)),
        rw (← same, ← last) (store.insert_key_row k saved.id tx₁ tx₂ e₂),
      )

  -- So does a transaction that returns, for everybody.
  pub transaction-stores :
      (dto : CreateOrderDto) (key : Option String) (db db' : store.Db) (o : Order)
      → store.transaction (store_order store dto key) db ≡ (ok o, db')
      → IsNew dto o
        × (store.order_row db' o.id ≡ some (stored o))
        × HasKey (store.key_row db') key o.id
  transaction-stores dto none db db' o h =
      let (tx, tx', body, keys, orders) = store.committed (store_order store dto none) db db' o h in
      let (fresh, row, _) = store_order-stores dto none tx tx' o body in
      (fresh, orders o.id (stored o) row, tt)
  transaction-stores dto (some k) db db' o h =
      let (tx, tx', body, keys, orders) =
        store.committed (store_order store dto (some k)) db db' o h in
      let (fresh, row, key) = store_order-stores dto (some k) tx tx' o body in
      (fresh, orders o.id (stored o) row, keys k o.id key)

-- The rows of an order and of its key.
pub record IsPersisted (store : OrderStore) (k : String) (o : Order) (db : store.Db) : Type 0 where
  pub id : String
  pub key_row : store.key_row db k ≡ some id
  pub order_row : store.order_row db id ≡ some o

abbrev pub IsKeyed : (store : OrderStore) → Option String → Order → store.Db → Type 0
IsKeyed store none o db = Unit
IsKeyed store (some k) o db = IsPersisted store k o db

module _ (store : OrderStore) {Redis Broker : Type 0} where
  called :
      {A : Type 0} (p : Result JsError A × store.Db) (w w' : World store.Db Redis Broker) (a : A)
      → ◌≡◌ {A = Result Exception A × World store.Db Redis Broker}
          (as_failure p.0, record w { db = p.1 })
          (ok a, w')
      → p ≡ (ok a, w'.db)
  called (ok b, db') w w' a h = cc
  called (throw e, db') w w' a h = absurd (cc)

  order_of_key-IsPersisted :
      (k : String) (row : Option String) (w w' : World store.Db Redis Broker) (o : Order)
      → row ≡ store.key_row w.db k
      → order_of_key store row w ≡ (ok (some o), w')
      → IsPersisted store k o w'.db
  order_of_key-IsPersisted k none w w' o keyed h = absurd (cc)
  order_of_key-IsPersisted k (some id) w w' o keyed h =
      let found = called (store.find_order id w.db) w w' (some o) h in
      record {
        id = id;
        key_row =
            subst (λ p. store.key_row p.1 k ≡ some id) found
              (store.find_order_keeps_keys id w.db k id (sym keyed));
        order_row = sym (store.find_order_reads id w.db w'.db (some o) found);
      }

  -- What a key leads to is persisted under it.
  pub find_by_key-IsPersisted :
      (k : String) (w w' : World store.Db Redis Broker) (o : Order)
      → find_by_key store k w ≡ (ok (some o), w')
      → IsPersisted store k o w'.db
  unfolding find_by_key
  find_by_key-IsPersisted k w w' o h =
      let (row, w₁, e, h₁) = bind-eq-ok (on_db store (store.find_key k)) (order_of_key store) w h in
      let found = called (store.find_key k w.db) w w₁ row e in
      order_of_key-IsPersisted k row w₁ w' o (store.find_key_reads k w.db w₁.db row found) h₁

  pub find_by_key-quiet :
      (k : String) (w : World store.Db Redis Broker) → (find_by_key store k w).1.broker ≡ w.broker
  unfolding find_by_key
  find_by_key-quiet k w = ground arith
