-- ===== src/Orders/App/Laws.antt =====
-- Whose requests order-service serves, and what they leave.
use platform_engineering_lab.Prelude.{
  ℕ, ◌≡◌, ◌⊎◌, refl, ap, ◌∙◌, String, true, false, ◌||◌, Option, some, ok, throw,
}
use platform_engineering_lab.Effects.{◌>>=◌, pure, lift, bind-eq-ok, bind-eq-throw}
use platform_engineering_lab.Auth.Verifier.{Principal}
use platform_engineering_lab.Auth.Guard.Laws.{IsAuthorized}
use platform_engineering_lab.Auth.Ownership.{is_admin, is_owner}
use platform_engineering_lab.Database.Filter.{http}
use platform_engineering_lab.Pipeline.{replied, refused, piped}
use platform_engineering_lab.Pipeline.Laws.{
  piped-ok, IsTurnedAway, serve-replied, serve-refused, serve-entered, answered-thrown,
}
use platform_engineering_lab.Orders.Types.{Order}
use platform_engineering_lab.Orders.Directory.{exists}
use platform_engineering_lab.Orders.Directory.Laws.{exists-frame}
use platform_engineering_lab.Orders.Service
use platform_engineering_lab.Orders.Service.{event_of, order_missing}
use platform_engineering_lab.Orders.Service.Stored.{stored}
use platform_engineering_lab.Orders.Controller
use platform_engineering_lab.Orders.Controller.Laws.{
  may_see, create-replies, find_one_iff, find_one-hidden,
}
use platform_engineering_lab.Orders.App.{
  orders_route, Incoming, Deployment, State, reject, outage, id_of, created_by, post_order,
  shown_to, get_order,
}

module _ {Body : Type 0} (d : Deployment Body) where
  abbrev pub IsServed : Option String → Principal → Type 0
  IsServed authorization p = IsAuthorized d.verify orders_route authorization p

  -- A stored order that is announced, or one that was there.
  abbrev pub Outcome : Incoming Body → State d → ℕ → Order → State d → Type 0
  Outcome r w status o w' =
      ((status ≡ 201)
        × (d.store.order_row w'.db o.id ≡ some (stored o))
        × (w'.broker ≡ (d.publish (event_of r.stamp (id_of d r) o) w.broker).1))
      ⊎ ((status ≡ 200) × (w'.broker ≡ w.broker))

  created_by-replies :
      (r : Incoming Body) (p : Principal) (status : ℕ) (o : Order) (w w' : State d)
      → created_by d r p w ≡ (ok (status, o), w')
      → ((is_admin p || is_owner p o.user_id) ≡ true) × Outcome r w status o w'
  unfolding created_by
  created_by-replies r p status o w w' h =
      let (dto, w₁, e, h₁) =
        bind-eq-ok (lift (piped (d.validation_pipe r.body)))
          (λ dto.
            Controller.create d.store d.publish (exists d.redis d.config d.users) p dto
              r.idempotency_key (id_of d r) r.authorization r.stamp)
          w h in
      let (_, same) = piped-ok (d.validation_pipe r.body) dto w w₁ e in
      create-replies d.store d.publish (exists d.redis d.config d.users) p dto r.idempotency_key
        (id_of d r) r.authorization r.stamp w
        (λ u c a v. (exists-frame d.redis d.config d.users u c a v).1) w' (status, o)
        (rw same at h₁)

  -- A request to create an order that order-service answers with one carries a token that verifies,
  -- of a customer or an admin; the order is the caller's own, unless the caller is an admin; with 201
  -- it is stored and its event, which has the request's id, is handed to the publisher once, and with
  -- 200 nothing is announced.
  pub post_order-replies :
      (r : Incoming Body) (status : ℕ) (o : Order) (w w' : State d)
      → post_order d r w ≡ (replied status o, w')
      → (p : Principal) × IsServed r.authorization p
        × ((is_admin p || is_owner p o.user_id) ≡ true)
        × Outcome r w status o w'
  unfolding post_order
  post_order-replies r status o w w' h =
      let (p, served, ran) =
        serve-replied (reject d) (outage d) d.verify orders_route r.authorization (created_by d r)
          refl status o w w' h in
      let (own, outcome) = created_by-replies r p status o w w' ran in (p, served, own, outcome)

  -- The database, Redis and the publisher are as they were.
  abbrev pub IsUntouched : State d → State d → Type 0
  IsUntouched w w' = (w'.db ≡ w.db) × (w'.redis ≡ w.redis) × (w'.broker ≡ w.broker)

  counted-IsUntouched :
      (w w' : State d) → ((reason : String) × (w' ≡ reject d reason w)) → IsUntouched w w'
  counted-IsUntouched w w' (reason, e) =
      (ap (λ v. v.db) e, ap (λ v. v.redis) e, ap (λ v. v.broker) e)

  -- A request without a token that verifies, of a customer or an admin, is answered 401, 403 or 503 on
  -- both routes, whatever its body and its other headers; the database, Redis and the publisher are
  -- as they were.
  pub unserved-IsUntouched :
      (r : Incoming Body) (q : Incoming String)
      → ((p : Principal) → IsServed r.authorization p → ⊥)
      → ((p : Principal) → IsServed q.authorization p → ⊥)
      → (w : State d)
      → (IsTurnedAway (post_order d r w).0 × IsUntouched w (post_order d r w).1)
        × (IsTurnedAway (get_order d q w).0 × IsUntouched w (get_order d q w).1)
  unfolding post_order get_order
  unserved-IsUntouched r q stranger other w =
      let (away, kept) =
        serve-refused (reject d) (outage d) d.verify orders_route r.authorization (created_by d r)
          refl stranger w in
      let (away_too, kept_too) =
        serve-refused (reject d) (outage d) d.verify orders_route q.authorization (shown_to d q)
          refl other w in
      (
        (away, counted-IsUntouched w (post_order d r w).1 kept),
        (away_too, counted-IsUntouched w (get_order d q w).1 kept_too),
      )

  shown_to-replies :
      (q : Incoming String) (p : Principal) (status : ℕ) (o : Order) (w w' : State d)
      → shown_to d q p w ≡ (ok (status, o), w')
      → (id : String) × (d.parse_uuid_pipe q.body ≡ ok id)
        × ((Service.find_one d.store id w).0 ≡ ok o)
        × (may_see p o ≡ true)
  unfolding shown_to
  shown_to-replies q p status o w w' h =
      let (id, w₁, e, h₁) =
        bind-eq-ok (lift (piped (d.parse_uuid_pipe q.body)))
          (λ id. Controller.find_one d.store p id >>= λ order. pure (200, order)) w h in
      let (order, w₂, found, h₂) =
        bind-eq-ok (Controller.find_one d.store p id) (λ order. pure (200, order)) w₁ h₁ in
      let (good, same) = piped-ok (d.parse_uuid_pipe q.body) id w w₁ e in
      let whole : order ≡ o = cc in
      let (there, may) =
        (find_one_iff d.store p id w o).0 (rw (same, whole) at (ap (λ x. x.0) found)) in
      (id, good, there, may)

  -- A lookup that order-service answers with an order carries a token that verifies, of a customer or
  -- an admin, who is the order's own user or an admin; the order is the stored one of that id.
  pub get_order-replies :
      (q : Incoming String) (status : ℕ) (o : Order) (w w' : State d)
      → get_order d q w ≡ (replied status o, w')
      → (p : Principal) × IsServed q.authorization p
        × (may_see p o ≡ true)
        × ((id : String) × (d.parse_uuid_pipe q.body ≡ ok id)
            × ((Service.find_one d.store id w).0 ≡ ok o))
  unfolding get_order
  get_order-replies q status o w w' h =
      let (p, served, ran) =
        serve-replied (reject d) (outage d) d.verify orders_route q.authorization (shown_to d q)
          refl status o w w' h in
      let (id, good, there, may) = shown_to-replies q p status o w w' ran in
      (p, served, may, (id, good, there))

  shown_to-missing :
      (q : Incoming String) (p : Principal) (id : String) (w : State d)
      → d.parse_uuid_pipe q.body ≡ ok id
      → (Controller.find_one d.store p id w).0 ≡ throw (http order_missing)
      → (shown_to d q p w).0 ≡ throw (http order_missing)
  unfolding shown_to
  shown_to-missing q p id w good missing = rw good (
      bind-eq-throw (Controller.find_one d.store p id) (λ order. pure (200, order)) w
        (http order_missing) missing)

  -- To a caller who is no admin, the order of another user is answered 404 as an order that does not
  -- exist: the two answers are the same.
  pub get_order-hidden :
      (q : Incoming String) (p : Principal) (id : String) (o : Order) (w : State d)
      → IsServed q.authorization p
      → d.parse_uuid_pipe q.body ≡ ok id
      → may_see p o ≡ false
      → ((Service.find_one d.store id w).0 ≡ ok o)
        ⊎ ((Service.find_one d.store id w).0 ≡ throw (http order_missing))
      → (get_order d q w).0 ≡ refused order_missing false
  unfolding get_order
  get_order-hidden q p id o w served good foreign there =
      ap (λ x. x.0)
        (serve-entered (reject d) (outage d) d.verify orders_route q.authorization (shown_to d q) p
          refl served w)
      ∙ answered-thrown (reject d) (outage d) d.verify orders_route q.authorization (shown_to d q)
          order_missing (shown_to d q p w)
          (shown_to-missing q p id w good (find_one-hidden d.store p id w o foreign there))
