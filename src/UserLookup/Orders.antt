-- ===== src/UserLookup/Orders.antt =====
-- For which users order-service creates orders, with user-service as it is.
use platform_engineering_lab.Prelude.{
  ℕ, ◌≡◌, ◌⊎◌, inl, inr, refl, sym, ap, subst, ◌∙◌, String, Bool, true, false, ◌||◌, Option, none,
  some, ok, arith, Bool-cases,
}
use platform_engineering_lab.Effects.{Act, lift, bind-eq-ok}
use platform_engineering_lab.Auth.Verifier.{Principal}
use platform_engineering_lab.Auth.Guard.Laws.{IsAuthorized}
use platform_engineering_lab.Auth.Ownership.{is_admin, is_owner}
use platform_engineering_lab.Database.Errors.{JsError}
use platform_engineering_lab.Pipeline.{replied, piped}
use platform_engineering_lab.Pipeline.Laws.{serve-replied, piped-ok}
use platform_engineering_lab.Users.App
use platform_engineering_lab.Users.Controller.{find_one_route}
use platform_engineering_lab.Orders.Types.{CreateOrderDto, Order, DomainEvent, World, Request}
use platform_engineering_lab.Orders.Cache
use platform_engineering_lab.Orders.Cache.{or_null}
use platform_engineering_lab.Orders.Directory.{given, exists, cache_key, is_truthy}
use platform_engineering_lab.Orders.Store.{OrderStore}
use platform_engineering_lab.Orders.Service.{
  CreateResult, Stamp, find_by_key, replay_or_create, create_with, create, if_exists, create_new,
}
use platform_engineering_lab.Orders.Service.Stored.{replay-user}
use platform_engineering_lab.Orders.Service.Laws.{Done}
use platform_engineering_lab.Orders.Service.Idempotency.{create-Done}
use platform_engineering_lab.Orders.Directory.Laws.{exists-frame}
use platform_engineering_lab.Orders.Controller
use platform_engineering_lab.Orders.Controller.{reply_of}
use platform_engineering_lab.Orders.Controller.Laws.{create-checked}
use platform_engineering_lab.Orders.App.{
  orders_route, Incoming, Deployment, State, reject, outage, id_of, created_by, post_order,
}
use platform_engineering_lab.UserLookup.{Attempt, user_service, Finds, Fails}
use platform_engineering_lab.UserLookup.Laws.{exists_iff}

module _ (store : OrderStore) {Redis Broker : Type 0}
    (publish : DomainEvent → Act JsError Broker (Unit {0}))
    (exists : String → String → Option String → Request store.Db Redis Broker Bool)
    (dto : CreateOrderDto) (correlation_id : String) (authorization : Option String)
    (stamp : Stamp) where
  -- The lookup of the request, before which Redis is as it was, has found the user.
  abbrev IsKnown : World store.Db Redis Broker → Type 0
  IsKnown w =
      (v : World store.Db Redis Broker) × (v.redis ≡ w.redis)
      × ((exists dto.user_id correlation_id authorization v).0 ≡ ok true)

  find_by_key-redis :
      (k : String) (w : World store.Db Redis Broker) → (find_by_key store k w).1.redis ≡ w.redis
  unfolding find_by_key
  find_by_key-redis k w = ground arith

  IsKnown-only :
      (known : Bool) (key : Option String) (w v w' : World store.Db Redis Broker) (r : CreateResult)
      → exists dto.user_id correlation_id authorization w ≡ (ok known, v)
      → if_exists store publish exists known dto key correlation_id stamp v ≡ (ok r, w')
      → IsKnown w
  IsKnown-only true key w v w' r asked h = (w, refl, ap (λ x. x.0) asked)
  IsKnown-only false key w v w' r asked h = absurd (cc)

  create_new-IsKnown :
      (key : Option String) (w w' : World store.Db Redis Broker) (r : CreateResult)
      → create_new store publish exists dto key correlation_id authorization stamp w ≡ (ok r, w')
      → IsKnown w
  unfolding create_new
  create_new-IsKnown key w w' r h =
      let (known, v, asked, h₁) =
        bind-eq-ok (exists dto.user_id correlation_id authorization)
          (λ b. if_exists store publish exists b dto key correlation_id stamp) w h in
      IsKnown-only known key w v w' r asked h₁

  replay_or_create-IsKnown :
      (existing : Option Order) (key : Option String) (w w' : World store.Db Redis Broker)
      (r : CreateResult)
      → replay_or_create store publish exists existing dto key correlation_id authorization stamp w
        ≡ (ok r, w')
      → r.created ≡ true
      → IsKnown w
  replay_or_create-IsKnown none key w w' r h created = create_new-IsKnown key w w' r h
  replay_or_create-IsKnown (some existing) key w w' r h created =
      let (_, old, _) = replay-user existing dto r (ap (λ x. x.0) h) in absurd (cc (old, created))

  create_with-IsKnown :
      (key : Option String) (w w' : World store.Db Redis Broker) (r : CreateResult)
      → create_with store publish exists key dto correlation_id authorization stamp w ≡ (ok r, w')
      → r.created ≡ true
      → IsKnown w
  create_with-IsKnown none w w' r h created = create_new-IsKnown none w w' r h
  create_with-IsKnown (some k) w w' r h created =
      let (existing, w₁, found, h₁) =
        bind-eq-ok (find_by_key store k)
          (λ o.
            replay_or_create store publish exists o dto (some k) correlation_id authorization stamp)
          w h in
      let (v, same, known) = replay_or_create-IsKnown existing (some k) w₁ w' r h₁ created in
      (v, same ∙ sym (ap (λ x. x.1.redis) found) ∙ find_by_key-redis k w, known)

  create-IsKnown :
      (key : Option String) (w w' : World store.Db Redis Broker) (r : CreateResult)
      → create store publish exists dto key correlation_id authorization stamp w ≡ (ok r, w')
      → r.created ≡ true
      → IsKnown w
  unfolding create
  create-IsKnown key w w' r h created = create_with-IsKnown (given key) w w' r h created

created-201 : (r : CreateResult) → (reply_of r).0 ≡ 201 → r.created ≡ true
created-201 r h = ground arith

module _ {A B : Type 0} (u : App.Deployment A) (d : Deployment B)
    (attempt : ℕ → Attempt u d.config) where
  -- order-service asks this user-service, which verifies tokens as it does.
  pub record IsJoined : Type 0 where
    pub asks : d.users ≡ user_service u d.config attempt
    pub alike : (token : String) → u.verify token ≡ d.verify token

  -- The cache holds the user, or user-service finds it, at the second attempt if the first fails.
  abbrev pub IsVouched : State d → String → Type 0
  IsVouched w id =
      (is_truthy (Cache.get d.redis (cache_key id) w).0 ≡ true)
      ⊎ Finds u d.config id (attempt 1)
      ⊎ (Fails u d.config id (attempt 1) × Finds u d.config id (attempt 2))

  vouched :
      (joined : IsJoined) (p : Principal) (id request_id : String) (authorization : Option String)
      (w v : State d)
      → v.redis ≡ w.redis
      → IsAuthorized d.verify orders_route authorization p
      → u.parse_uuid_pipe id ≡ ok id
      → (is_admin p || is_owner p id) ≡ true
      → (exists d.redis d.config d.users id request_id authorization v).0 ≡ ok true
      → IsVouched w id
  unfolding Cache.get
  vouched joined p id request_id authorization w v same served valid may yes_known =
      elim (Bool-cases (is_truthy (Cache.get d.redis (cache_key id) v).0)) [
        | inl cached ↦
            inl
              (subst (λ s. is_truthy (or_null (d.redis.get (cache_key id) s).0) ≡ true) same cached)
        | inr absent ↦
            let there : IsAuthorized u.verify find_one_route authorization p = record {
              token = served.token;
              carried = served.carried;
              verified = joined.alike served.token ∙ served.verified;
              role = served.role;
            } in
            elim ((exists_iff u d.config d.redis v request_id attempt authorization id p there valid
                may absent).0.0
              (subst
                (λ users. (exists d.redis d.config users id request_id authorization v).0 ≡ ok true)
                joined.asks yes_known)) [
                  | inl first ↦ inr (inl first)
                  | inr second ↦ inr (inr second)
                ]
      ]

  user_of :
      (r : Incoming B) (dto : CreateOrderDto) (key : Option String) (b : d.Broker)
      (res : CreateResult) (w' : State d)
      → Done d.store d.publish
          (exists d.redis d.config d.users)
          dto
          (id_of d r)
          r.stamp
          key
          b
          res
          w'
      → res.order.user_id ≡ dto.user_id
  user_of r dto key b res w' (inl new) = new.fresh.user_id
  user_of r dto key b res w' (inr old) = old.same_user

  created_by-IsVouched :
      (joined : IsJoined) (r : Incoming B) (p : Principal) (o : Order) (w w' : State d)
      → IsAuthorized d.verify orders_route r.authorization p
      → u.parse_uuid_pipe o.user_id ≡ ok o.user_id
      → created_by d r p w ≡ (ok (201, o), w')
      → IsVouched w o.user_id
  unfolding created_by
  created_by-IsVouched joined r p o w w' served valid h =
      let (dto, w₁, e, h₁) =
        bind-eq-ok (lift (piped (d.validation_pipe r.body)))
          (λ dto.
            Controller.create d.store d.publish (exists d.redis d.config d.users) p dto
              r.idempotency_key (id_of d r) r.authorization r.stamp)
          w h in
      let (_, start) = piped-ok (d.validation_pipe r.body) dto w w₁ e in
      let (may, (res, made, reply)) =
        create-checked d.store d.publish (exists d.redis d.config d.users) p dto r.idempotency_key
          (id_of d r) r.authorization r.stamp w₁ w' (201, o) h₁ in
      let body : o ≡ res.order = ap (λ x. x.1) reply in
      let user : dto.user_id ≡ o.user_id =
        sym (
          user_of r dto (given r.idempotency_key) w₁.broker res w' (
            create-Done d.store d.publish (exists d.redis d.config d.users) dto (id_of d r) r.stamp
              r.authorization (λ i c a v. (exists-frame d.redis d.config d.users i c a v).1)
              r.idempotency_key w₁ w' res made))
        ∙ sym (ap (λ (x : Order). x.user_id) body) in
      let (v, same, known) =
        create-IsKnown d.store d.publish (exists d.redis d.config d.users) dto (id_of d r)
          r.authorization r.stamp r.idempotency_key w₁ w' res made
          (created-201 res (sym (ap (λ x. x.0) reply))) in
      subst (IsVouched w) user (
        vouched joined p dto.user_id (id_of d r) r.authorization w v
          (same ∙ ap (λ (x : State d). x.redis) start) served
          (subst (λ i. u.parse_uuid_pipe i ≡ ok i) (sym user) valid) may known)

  -- Where order-service asks this user-service, and both verify tokens alike, a request that is
  -- answered 201 has created an order for a user whom the cache holds as the request
  -- arrives, or whom user-service found at
  -- the first attempt of the lookup, or at the second after a first that failed. The id of the user
  -- passes the pipe of user-service as it is.
  pub post_order-IsVouched :
      (r : Incoming B) (o : Order) (w w' : State d)
      → IsJoined
      → u.parse_uuid_pipe o.user_id ≡ ok o.user_id
      → post_order d r w ≡ (replied 201 o, w')
      → IsVouched w o.user_id
  unfolding post_order
  post_order-IsVouched r o w w' joined valid h =
      let (p, served, ran) =
        serve-replied (reject d) (outage d) d.verify orders_route r.authorization (created_by d r)
          refl 201 o w w' h in
      created_by-IsVouched joined r p o w w' served valid ran
