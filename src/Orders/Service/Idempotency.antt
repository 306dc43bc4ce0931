-- ===== src/Orders/Service/Idempotency.antt =====
-- A request to create an order, as a whole, and its repetition under the same Idempotency-Key.
use platform_engineering_lab.Prelude.{
  ◌≡◌, ◌≢◌, ◌⊎◌, inl, inr, refl, sym, ap, ◌∙◌, String, Bool, true, false, Option, none, some,
  Result, ok, throw, eq_iff, arith, Result-cases,
}
use platform_engineering_lab.Effects.{Act, bind-eq-ok}
use platform_engineering_lab.Js.Text.{to_lower_case}
use platform_engineering_lab.Database.Errors.{JsError}
use platform_engineering_lab.Database.Filter.{Exception, http, failure}
use platform_engineering_lab.Orders.Types.{CreateOrderDto, Order, DomainEvent, World, Request}
use platform_engineering_lab.Orders.Directory.{given}
use platform_engineering_lab.Orders.Store.{OrderStore}
use platform_engineering_lab.Orders.Service.{
  CreateResult, Stamp, replay, find_by_key, replay_or_create, create_with, create, key_used,
}
use platform_engineering_lab.Orders.Service.Rows.{IsLater}
use platform_engineering_lab.Orders.Service.Stored.{
  stored, IsPersisted, IsKeyed, find_by_key-IsPersisted, find_by_key-quiet,
}
use platform_engineering_lab.Orders.Service.Laws.{IsCreated, Done, lift-IsReplay, create_new-Done}

module _ (store : OrderStore) {Redis Broker : Type 0}
    (publish : DomainEvent → Act JsError Broker (Unit {0}))
    (exists : String → String → Option String → Request store.Db Redis Broker Bool)
    (dto : CreateOrderDto) (correlation_id : String) (stamp : Stamp)
    (authorization : Option String) where
  module _
      (quiet : (u c : String) (a : Option String) (w : World store.Db Redis Broker)
        → (exists u c a w).1.broker ≡ w.broker) where
    replay_or_create-Done :
        (existing : Option Order) (key : Option String) (w w₁ w' : World store.Db Redis Broker)
        (r : CreateResult)
        → w₁.broker ≡ w.broker
        → ((o : Order) → existing ≡ some o → IsKeyed store key o w₁.db)
        → replay_or_create store publish exists existing dto key correlation_id authorization stamp
            w₁
          ≡ (ok r, w')
        → Done store publish exists dto correlation_id stamp key w.broker r w'
    replay_or_create-Done none key w w₁ w' r same keyed h = rw same at (
        create_new-Done store publish exists dto correlation_id stamp quiet authorization key w₁ w'
          r h)
    replay_or_create-Done (some existing) key w w₁ w' r same keyed h =
        let i : Done store publish exists dto correlation_id stamp key w₁.broker r w' = inr (
          lift-IsReplay store publish exists dto correlation_id stamp key existing w₁ w' r
            (keyed existing refl) h) in
        rw same at i

    create_with-Done :
        (key : Option String) (w w' : World store.Db Redis Broker) (r : CreateResult)
        → create_with store publish exists key dto correlation_id authorization stamp w ≡ (ok r, w')
        → Done store publish exists dto correlation_id stamp key w.broker r w'
    create_with-Done none w w' r h =
        create_new-Done store publish exists dto correlation_id stamp quiet authorization none w w'
          r h
    create_with-Done (some k) w w' r h =
        let (existing, w₁, found, h₁) =
          bind-eq-ok (find_by_key store k)
            (λ o.
              replay_or_create store publish exists o dto (some k) correlation_id authorization
                stamp)
            w h in
        replay_or_create-Done existing (some k) w w₁ w' r
          (sym (ap (λ x. x.1.broker) found) ∙ find_by_key-quiet store k w)
          (λ o e. find_by_key-IsPersisted store k w w₁ o (found ∙ ap (λ x. (ok x, w₁)) e)) h₁

    -- A request that succeeds has either stored a new order with its data, together with its key, and
    -- then handed that order's event to the publisher once, or it returns an order of the same user
    -- that was there under the same key, and announces nothing. Whatever fails in between, there is no
    -- third way.
    pub create-Done :
        (key : Option String) (w w' : World store.Db Redis Broker) (r : CreateResult)
        → create store publish exists dto key correlation_id authorization stamp w ≡ (ok r, w')
        → Done store publish exists dto correlation_id stamp (given key) w.broker r w'
    unfolding create
    create-Done key w w' r h = create_with-Done (given key) w w' r h

-- `replay` compares the texts of the two user ids.
replay-eq :
    (o : Order) (dto : CreateOrderDto)
    → o.user_id ≡ dto.user_id
    → replay o dto ≡ ok (record { order = o; created = false })
unfolding replay
replay-eq o dto same = ground (arith, eq_iff o.user_id dto.user_id)

replay-ne :
    (o : Order) (dto : CreateOrderDto)
    → o.user_id ≢ dto.user_id
    → replay o dto ≡ throw (http key_used)
unfolding replay
replay-ne o dto other = ground (arith, eq_iff o.user_id dto.user_id)

module _ (store : OrderStore) where
  find_by_key-persisted :
      {Redis Broker : Type 0} (k : String) (o : Order) (w : World store.Db Redis Broker)
      → IsPersisted store k o w.db
      → ((find_by_key store k w).0 ≡ ok (some o))
        ⊎ ((e : JsError) × ((find_by_key store k w).0 ≡ throw (failure e)))
  unfolding find_by_key
  find_by_key-persisted k o w p = elim (Result-cases (store.find_key k w.db).0) [
    | inl (row, read) ↦
        let db₁ = (store.find_key k w.db).1 in
        let same : row ≡ some p.id =
          store.find_key_reads k w.db db₁ row (λ i. (read i, db₁))
          ∙ store.find_key_keeps_keys k w.db k p.id p.key_row in
        let db₂ = (store.find_order p.id db₁).1 in
        elim (Result-cases (store.find_order p.id db₁).0) [
          | inl (found, read_order) ↦
              let whole : found ≡ some o =
                store.find_order_reads p.id db₁ db₂ found (λ i. (read_order i, db₂))
                ∙ store.find_order_keeps_orders p.id db₁ p.id o
                    (store.find_key_keeps_orders k w.db p.id o p.order_row) in
              inl (ground arith)
          | inr (e, failed) ↦ inr (e, ground arith)
        ]
    | inr (e, failed) ↦ inr (e, ground arith)
  ]

module _ (store : OrderStore) {Redis Broker : Type 0}
    (publish : DomainEvent → Act JsError Broker (Unit {0}))
    (exists : String → String → Option String → Request store.Db Redis Broker Bool)
    (correlation_id : String) (stamp : Stamp) (authorization : Option String) where
  -- What a repeated request comes to: the order that is there, a conflict, or a failed query.
  abbrev pub Repeated :
      Order
      → CreateOrderDto
      → Broker
      → Result Exception CreateResult
      → World store.Db Redis Broker
      → Type 0
  Repeated o dto b x w' =
      (w'.broker ≡ b) × ((x ≡ replay o dto) ⊎ ((e : JsError) × (x ≡ throw (failure e))))

  after_lookup :
      (found : Result Exception (Option Order)) (o : Order) (dto : CreateOrderDto) (k : String)
      (w w₁ w' : World store.Db Redis Broker) (x : Result Exception CreateResult)
      → (found ≡ ok (some o)) ⊎ ((e : JsError) × (found ≡ throw (failure e)))
      → find_by_key store k w ≡ (found, w₁)
      → create_with store publish exists (some k) dto correlation_id authorization stamp w ≡ (x, w')
      → Repeated o dto w.broker x w'
  after_lookup found o dto k w w₁ w' x (inl there) f h =
      let quiet : w₁.broker ≡ w.broker =
        sym (ap (λ p. p.1.broker) f) ∙ find_by_key-quiet store k w in
      (ground (arith, quiet), inl (ground arith))
  after_lookup found o dto k w w₁ w' x (inr (e, failed)) f h =
      let quiet : w₁.broker ≡ w.broker =
        sym (ap (λ p. p.1.broker) f) ∙ find_by_key-quiet store k w in
      (ground (arith, quiet), inr (e, ground arith))

  -- Once an order and its key are stored, any request under that key announces
  -- nothing, and returns what the replay of that order says, or the error of a query that failed.
  pub create-Repeated :
      (key : Option String) (k : String) (o : Order) (dto : CreateOrderDto)
      (w w' : World store.Db Redis Broker) (x : Result Exception CreateResult)
      → given key ≡ some k
      → IsPersisted store k o w.db
      → create store publish exists dto key correlation_id authorization stamp w ≡ (x, w')
      → Repeated o dto w.broker x w'
  unfolding create
  create-Repeated key k o dto w w' x named p h =
      let found = find_by_key store k w in
      after_lookup found.0 o dto k w found.1 w' x (find_by_key-persisted store k o w p) refl
        (rw named at h)

  module _
      (quiet : (u c : String) (a : Option String) (w : World store.Db Redis Broker)
        → (exists u c a w).1.broker ≡ w.broker)
      (k : String) (named : given (some k) ≡ some k) (dto : CreateOrderDto)
      (w w' : World store.Db Redis Broker) (r : CreateResult)
      (first : create store publish exists dto (some k) correlation_id authorization stamp w
        ≡ (ok r, w'))
      (created : r.created ≡ true) (w₂ w₃ : World store.Db Redis Broker)
      (x : Result Exception CreateResult) (later : IsLater store w'.db w₂.db)
      (second : create store publish exists dto (some k) correlation_id authorization stamp w₂
        ≡ (x, w₃)) where
    IsCreated-of :
        Done store publish exists dto correlation_id stamp (some k) w.broker r w'
        → IsCreated store publish exists dto correlation_id stamp (some k) w.broker r w'
    IsCreated-of (inl c) = c
    IsCreated-of (inr old) = absurd (cc (old.created, created))

    done : IsCreated store publish exists dto correlation_id stamp (some k) w.broker r w'
    done = IsCreated-of (
        rw named at (
          create-Done store publish exists dto correlation_id stamp authorization quiet (some k) w
            w' r first))

    repeated : Repeated (stored r.order) dto w₂.broker x w₃
    repeated =
        create-Repeated (some k) k (stored r.order) dto w₂ w₃ x named
          (record {
            id = r.order.id;
            key_row = later.keys k r.order.id done.keyed;
            order_row = later.orders r.order.id (stored r.order) done.row;
          })
          second

    -- The same request sent again, at any later time, with a user id in lower case: it returns the
    -- order that the first one created, as not created, or fails by an error of the database; it
    -- announces nothing.
    pub create-retry :
        to_lower_case dto.user_id ≡ dto.user_id
        → (w₃.broker ≡ w₂.broker)
          × ((x ≡ ok (record { order = r.order; created = false }))
              ⊎ ((e : JsError) × (x ≡ throw (failure e))))
    create-retry lower =
        let same : stored r.order ≡ r.order = λ i. record r.order {
          user_id = (ap to_lower_case done.fresh.user_id ∙ lower ∙ sym done.fresh.user_id) i;
        } in
        (repeated.0, rw (replay-eq r.order dto done.fresh.user_id) at (rw same at repeated.1))

    -- With a letter of the user id in upper case, the same request sent again is refused as a
    -- conflict, or fails by an error of the database: its own order is never returned to it.
    pub create-retry_upper :
        to_lower_case dto.user_id ≢ dto.user_id
        → (x ≡ throw (http key_used)) ⊎ ((e : JsError) × (x ≡ throw (failure e)))
    create-retry_upper upper =
        rw
          (replay-ne (stored r.order) dto
            (λ same. upper (ap to_lower_case (sym done.fresh.user_id) ∙ same)))
          at repeated.1
