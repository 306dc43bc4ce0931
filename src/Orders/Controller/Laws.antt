-- ===== src/Orders/Controller/Laws.antt =====
-- Who sees an order, and for whom an order is created.
use platform_engineering_lab.Prelude.{
  ◌≡◌, ◌↔◌, ◌⊎◌, inl, inr, refl, String, Bool, true, false, ◌||◌, Option, some, Result, ok, throw,
  arith, Bool-cases, Result-cases,
}
use platform_engineering_lab.Effects.{Act, ◌>>=◌, ◌>>◌, pure, bind-eq-ok}
use platform_engineering_lab.Auth.Http.{Refusal, forbidden_exception}
use platform_engineering_lab.Auth.Verifier.{Principal}
use platform_engineering_lab.Auth.Ownership.{
  is_admin, is_owner, assert_self_or_admin, owner_or_not_found,
}
use platform_engineering_lab.Database.Errors.{JsError}
use platform_engineering_lab.Database.Filter.{http}
use platform_engineering_lab.Orders.Types.{
  CreateOrderDto, Order, DomainEvent, World, Request, counted, auth_rejection,
}
use platform_engineering_lab.Orders.Store.{OrderStore}
use platform_engineering_lab.Orders.Service
use platform_engineering_lab.Orders.Service.{CreateResult, Stamp, order_missing, event_of}
use platform_engineering_lab.Orders.Service.Stored.{stored}
use platform_engineering_lab.Orders.Service.Laws.{Done}
use platform_engineering_lab.Orders.Service.Idempotency.{create-Done}
use platform_engineering_lab.Orders.Directory.{given}
use platform_engineering_lab.Orders.Controller.{
  is_bad_key, reply_of, Reply, allow, check_key, find_one, create,
}

abbrev pub may_see : Principal → Order → Bool
may_see p o = is_admin p || is_owner p o.user_id

module _ {Db Redis Broker : Type 0} where
  allow-ok :
      (r : Result Refusal (Unit {0})) (w w' : World Db Redis Broker) (u : Unit {0})
      → allow r w ≡ (ok u, w')
      → (r ≡ ok tt) × (w' ≡ w)
  allow-ok (ok tt) w w' u h = (refl, cc)
  allow-ok (throw r) w w' u h = absurd (cc)

  check_key-ok :
      (bad : Bool) (w w' : World Db Redis Broker) (u : Unit {0})
      → check_key bad w ≡ (ok u, w')
      → w' ≡ w
  check_key-ok true w w' u h = absurd (cc)
  check_key-ok false w w' u h = cc

assert-may :
    (p : Principal) (user_id : String)
    → assert_self_or_admin p user_id ≡ ok tt
    → (is_admin p || is_owner p user_id) ≡ true
unfolding assert_self_or_admin
assert-may p user_id h = ground arith

module _ (store : OrderStore) {Redis Broker : Type 0} (p : Principal) (id : String)
    (w : World store.Db Redis Broker) where
  -- A lookup shows an order exactly when the service finds it and the caller is an admin or its owner.
  pub find_one_iff :
      (o : Order)
      → ((find_one store p id w).0 ≡ ok o)
        ↔ (((Service.find_one store id w).0 ≡ ok o) × (may_see p o ≡ true))
  unfolding find_one owner_or_not_found
  find_one_iff o = elim (Result-cases (Service.find_one store id w).0) [
    | inl (found, e) ↦ elim (Bool-cases (may_see p found)) [
      | inl may ↦ ground arith
      | inr not ↦ ground arith
    ]
    | inr (err, e) ↦ ground arith
  ]

  -- The order of another user is answered as one that does not exist.
  pub find_one-hidden :
      (o : Order)
      → may_see p o ≡ false
      → ((Service.find_one store id w).0 ≡ ok o)
        ⊎ ((Service.find_one store id w).0 ≡ throw (http order_missing))
      → (find_one store p id w).0 ≡ throw (http order_missing)
  unfolding find_one owner_or_not_found
  find_one-hidden o foreign (inl found) = ground arith
  find_one-hidden o foreign (inr missing) = ground arith

module _ (store : OrderStore) {Redis Broker : Type 0}
    (publish : DomainEvent → Act JsError Broker (Unit {0}))
    (exists : String → String → Option String → Request store.Db Redis Broker Bool) (p : Principal)
    (dto : CreateOrderDto) (key : Option String) (request_id : String)
    (authorization : Option String) (stamp : Stamp) (w : World store.Db Redis Broker) where
  -- A caller who is neither an admin nor the user of the order is refused with 403 before anything
  -- else happens: the database, Redis and the publisher are as they were.
  pub create-refused :
      (is_admin p || is_owner p dto.user_id) ≡ false
      → ((create store publish exists p dto key request_id authorization stamp w).0
          ≡ throw (http forbidden_exception))
        × ((create store publish exists p dto key request_id authorization stamp w).1
            ≡ counted (auth_rejection "not_owner") w)
  unfolding create assert_self_or_admin
  create-refused foreign = (ground arith, ground arith)

  pub create-checked :
      (w' : World store.Db Redis Broker) (reply : Reply)
      → create store publish exists p dto key request_id authorization stamp w ≡ (ok reply, w')
      → ((is_admin p || is_owner p dto.user_id) ≡ true)
        × ((r : CreateResult) × (Service.create store publish exists dto key request_id
                authorization stamp w
              ≡ (ok r, w'))
            × (reply ≡ reply_of r))
  unfolding create
  create-checked w' reply h =
      let (done, w₁, e, h₁) =
        bind-eq-ok (allow (assert_self_or_admin p dto.user_id))
          (λ u.
            check_key (is_bad_key key)
            >> (Service.create store publish exists dto key request_id authorization stamp >>= λ r.
                pure (reply_of r)))
          w h in
      let (good, w₂, e₂, h₂) =
        bind-eq-ok (check_key (is_bad_key key))
          (λ u. Service.create store publish exists dto key request_id authorization stamp >>= λ r.
            pure (reply_of r))
          w₁ h₁ in
      let (r, w₃, e₃, h₃) =
        bind-eq-ok (Service.create store publish exists dto key request_id authorization stamp)
          (λ r. pure (reply_of r)) w₂ h₂ in
      let (may, first) = allow-ok (assert_self_or_admin p dto.user_id) w w₁ done e in
      let next = check_key-ok (is_bad_key key) w₁ w₂ good e₂ in
      let last : w₃ ≡ w' = cc in
      (assert-may p dto.user_id may, (r, rw (next, first, last) at e₃, cc))

  -- A request that succeeds is that of an admin, or the order that it returns belongs to the caller;
  -- the status is 201 for an order that it has stored and handed to the publisher, and 200 for one
  -- that was there, of which nothing is announced.
  pub create-replies :
      ((u c : String) (a : Option String) (v : World store.Db Redis Broker)
        → (exists u c a v).1.broker ≡ v.broker)
      → (w' : World store.Db Redis Broker) (reply : Reply)
      → create store publish exists p dto key request_id authorization stamp w ≡ (ok reply, w')
      → ((is_admin p || is_owner p reply.1.user_id) ≡ true)
        × (((reply.0 ≡ 201)
              × (store.order_row w'.db reply.1.id ≡ some (stored reply.1))
              × (w'.broker ≡ (publish (event_of stamp request_id reply.1) w.broker).1))
            ⊎ ((reply.0 ≡ 200) × (w'.broker ≡ w.broker)))
  create-replies quiet w' reply h =
      let (may, (r, made, same)) = create-checked w' reply h in
      rw same (
        replied w' r may (
          create-Done store publish exists dto request_id stamp authorization quiet key w w' r
            made))
    where
      replied :
          (w' : World store.Db Redis Broker) (r : CreateResult)
          → (is_admin p || is_owner p dto.user_id) ≡ true
          → Done store publish exists dto request_id stamp (given key) w.broker r w'
          → ((is_admin p || is_owner p r.order.user_id) ≡ true)
            × ((((reply_of r).0 ≡ 201)
                  × (store.order_row w'.db r.order.id ≡ some (stored r.order))
                  × (w'.broker ≡ (publish (event_of stamp request_id r.order) w.broker).1))
                ⊎ (((reply_of r).0 ≡ 200) × (w'.broker ≡ w.broker)))
      replied w' r may (inl new) =
          (rw (new.fresh.user_id) may, inl (rw (new.created) refl, new.row, new.announced))
      replied w' r may (inr old) = (rw (old.same_user) may, inr (rw (old.created) refl, old.quiet))
