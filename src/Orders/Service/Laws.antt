-- ===== src/Orders/Service/Laws.antt =====
-- What a request to create an order stores, announces and returns.
use platform_engineering_lab.Prelude.{
  ◌≡◌, ◌⊎◌, inl, inr, refl, sym, ap, subst, ◌∙◌, String, Bool, true, false, Option, none, some,
  Result, ok, throw, arith, Bool-cases,
}
use platform_engineering_lab.Effects.{bind-eq-ok, Act, lift}
use platform_engineering_lab.Database.Errors.{JsError, is_unique_violation}
use platform_engineering_lab.Orders.Types.{CreateOrderDto, Order, DomainEvent, World, Request}
use platform_engineering_lab.Orders.Store.{OrderStore}
use platform_engineering_lab.Orders.Service.{
  CreateResult, Stamp, replay, event_of, find_by_key, store_order, publish_created, finish,
  replay_or, store_and_publish, if_exists, create_new,
}
use platform_engineering_lab.Orders.Service.Stored.{
  replay-user, stored, IsNew, HasKey, transaction-stores, IsKeyed, find_by_key-IsPersisted,
  find_by_key-quiet,
}

module _ (store : OrderStore) {Redis Broker : Type 0}
    (publish : DomainEvent → Act JsError Broker (Unit {0}))
    (exists : String → String → Option String → Request store.Db Redis Broker Bool)
    (dto : CreateOrderDto) (correlation_id : String) (stamp : Stamp) where
  -- A new order: committed with its key, and handed to the publisher once, after that.
  pub record IsCreated (key : Option String) (b : Broker) (r : CreateResult)
      (w' : World store.Db Redis Broker) : Type 0 where
    pub created : r.created ≡ true
    pub fresh : IsNew dto r.order
    pub row : store.order_row w'.db r.order.id ≡ some (stored r.order)
    pub keyed : HasKey (store.key_row w'.db) key r.order.id
    pub announced : w'.broker ≡ (publish (event_of stamp correlation_id r.order) b).1

  -- An order that was there before, under the same key: one of the same user, and nothing is
  -- announced.
  pub record IsReplay (key : Option String) (b : Broker) (r : CreateResult)
      (w' : World store.Db Redis Broker) : Type 0 where
    pub created : r.created ≡ false
    pub same_user : r.order.user_id ≡ dto.user_id
    pub persisted : IsKeyed store key r.order w'.db
    pub quiet : w'.broker ≡ b

  abbrev pub Done : Option String → Broker → CreateResult → World store.Db Redis Broker → Type 0
  Done key b r w' = IsCreated key b r w' ⊎ IsReplay key b r w'

  pub lift-IsReplay :
      (key : Option String) (existing : Order) (w w' : World store.Db Redis Broker)
      (r : CreateResult)
      → IsKeyed store key existing w.db
      → lift (replay existing dto) w ≡ (ok r, w')
      → IsReplay key w.broker r w'
  lift-IsReplay key existing w w' r keyed h =
      let (user, old, same) = replay-user existing dto r (ap (λ x. x.0) h) in
      record {
        created = old;
        same_user = user;
        persisted =
            subst (λ o. IsKeyed store key o w'.db) (sym same)
              (subst (λ v. IsKeyed store key existing v.db) (ap (λ x. x.1) h) keyed);
        quiet = sym (ap (λ x. x.1.broker) h);
      }

  -- After a lookup of the key.
  after_key-IsReplay :
      (k : String) (existing : Option Order) (e : JsError) (w w₁ w' : World store.Db Redis Broker)
      (r : CreateResult)
      → find_by_key store k w ≡ (ok existing, w₁)
      → replay_or store publish exists e dto existing w₁ ≡ (ok r, w')
      → IsReplay (some k) w.broker r w'
  after_key-IsReplay k none e w w₁ w' r found h = cc
  after_key-IsReplay k (some existing) e w w₁ w' r found h =
      let i =
        lift-IsReplay (some k) existing w₁ w' r
          (find_by_key-IsPersisted store k w w₁ existing found) h in
      record {
        created = i.created;
        same_user = i.same_user;
        persisted = i.persisted;
        quiet = i.quiet ∙ sym (ap (λ x. x.1.broker) found) ∙ find_by_key-quiet store k w;
      }

  finish-Done :
      (key : Option String) (x : Result JsError Order) (w w' : World store.Db Redis Broker)
      (db : store.Db) (r : CreateResult)
      → store.transaction (store_order store dto key) db ≡ (x, w.db)
      → finish store publish exists dto key correlation_id stamp x w ≡ (ok r, w')
      → Done key w.broker r w'
  unfolding publish_created
  finish-Done key (ok o) w w' db r t h =
      let (fresh, row, keyed) = transaction-stores store dto key db w.db o t in
      let same : r ≡ record { order = o; created = true } = ground arith in
      let kept : w'.db ≡ w.db = ground arith in
      inl (record {
        created = ground arith;
        fresh = rw same fresh;
        row = rw (same, kept) row;
        keyed = rw (same, kept) keyed;
        announced = ground arith;
      })
  finish-Done none (throw e) w w' db r t h = cc
  finish-Done (some k) (throw e) w w' db r t h = inr (elim (Bool-cases (is_unique_violation e)) [
    | inl unique ↦
        let (existing, w₁, found, h₁) =
          bind-eq-ok (find_by_key store k) (replay_or store publish exists e dto) w
            (rw unique at h) in
        after_key-IsReplay k existing e w w₁ w' r found h₁
    | inr other ↦ absurd (ground arith)
  ])

  store_and_publish-Done :
      (key : Option String) (w w' : World store.Db Redis Broker) (r : CreateResult)
      → store_and_publish store publish exists dto key correlation_id stamp w ≡ (ok r, w')
      → Done key w.broker r w'
  unfolding store_and_publish
  store_and_publish-Done key w w' r h =
      let (x, db') = store.transaction (store_order store dto key) w.db in
      finish-Done key x (record w { db = db' }) w' w.db r refl h

  module _
      (quiet : (u c : String) (a : Option String) (w : World store.Db Redis Broker)
        → (exists u c a w).1.broker ≡ w.broker)
      (authorization : Option String) where
    pub create_new-Done :
        (key : Option String) (w w' : World store.Db Redis Broker) (r : CreateResult)
        → create_new store publish exists dto key correlation_id authorization stamp w ≡ (ok r, w')
        → Done key w.broker r w'
    unfolding create_new
    create_new-Done key w w' r h =
        let (known, w₁, asked, h₁) =
          bind-eq-ok (exists dto.user_id correlation_id authorization)
            (λ b. if_exists store publish exists b dto key correlation_id stamp) w h in
        let same : w₁.broker ≡ w.broker =
          sym (ap (λ x. x.1.broker) asked) ∙ quiet dto.user_id correlation_id authorization w in
        known_only known key w w₁ w' r same h₁
      where
        known_only :
            (known : Bool) (key : Option String) (w w₁ w' : World store.Db Redis Broker)
            (r : CreateResult)
            → w₁.broker ≡ w.broker
            → if_exists store publish exists known dto key correlation_id stamp w₁ ≡ (ok r, w')
            → Done key w.broker r w'
        known_only true key w w₁ w' r same h₁ = rw same at (store_and_publish-Done key w₁ w' r h₁)
        known_only false key w w₁ w' r same h₁ = cc
