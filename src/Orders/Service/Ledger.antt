-- ===== src/Orders/Service/Ledger.antt =====
-- Requests to create orders, one after the other, whatever happens between them: what each
-- Idempotency-Key leads to.
mod Tests
use platform_engineering_lab.Prelude.{
  ◌≡◌, ◌⊎◌, inl, inr, refl, sym, ap, subst, ◌∙◌, String, Bool, true, false, List, [], ◌∷◌, Option,
  none, some, Result, ok, throw, All, arith, Result-cases,
}
use platform_engineering_lab.Effects.{Act}
use platform_engineering_lab.Js.Text.{to_lower_case_idem}
use platform_engineering_lab.Database.Errors.{JsError}
use platform_engineering_lab.Database.Filter.{Exception, failure}
use platform_engineering_lab.Orders.Types.{CreateOrderDto, Order, DomainEvent, World, Request}
use platform_engineering_lab.Orders.Cache.{Redis}
use platform_engineering_lab.Orders.Directory.{given, exists, DirectoryConfig, UserService}
use platform_engineering_lab.Orders.Directory.Laws.{exists-frame}
use platform_engineering_lab.Orders.Store.{OrderStore}
use platform_engineering_lab.Orders.Service.{CreateResult, Stamp, replay, create}
use platform_engineering_lab.Orders.Service.Rows.{IsLater, IsLater-refl, create-Adds}
use platform_engineering_lab.Orders.Service.Stored.{
  stored, IsPersisted, IsKeyed, HasKey, replay-user,
}
use platform_engineering_lab.Orders.Service.Laws.{Done, IsReplay}
use platform_engineering_lab.Orders.Service.Idempotency.{Repeated, create-Done, create-Repeated}

-- A request of POST /v1/orders as the service gets it, and what user-service answers to its lookup.
pub record Asked : Type 0 where
  pub dto : CreateOrderDto
  pub key : Option String
  pub correlation_id : String
  pub authorization : Option String
  pub stamp : Stamp
  pub users : UserService

abbrev pub Outcome : Type 0
Outcome = Option String × Result Exception CreateResult

-- What a later request under the key comes to.
abbrev pub Returns : String → Order → Outcome → Type 0
Returns k o (key, ok r) = given key ≡ some k → (r.created ≡ false) × (stored r.order ≡ stored o)
Returns k o (key, throw e) = Unit

abbrev pub Settles : Outcome → List Outcome → Type 0
Settles (key, ok r) later = (k : String) → given key ≡ some k → All (Returns k r.order) later
Settles (key, throw e) later = Unit

-- Once a request under a key has returned an order, each later one under that key that returns one
-- returns the same order, and creates none.
abbrev pub OnePerKey : List Outcome → Type 0
OnePerKey [] = Unit
OnePerKey (x ∷ later) = Settles x later × OnePerKey later

stored_idem : (o : Order) → stored (stored o) ≡ stored o
stored_idem o = λ i. record o { user_id = to_lower_case_idem o.user_id i }

replay-Returns :
    (k : String) (o p : Order) (dto : CreateOrderDto) (key : Option String)
    (x : Result Exception CreateResult)
    → stored p ≡ stored o
    → (x ≡ replay p dto) ⊎ ((e : JsError) × (x ≡ throw (failure e)))
    → Returns k o (key, x)
replay-Returns k o p dto key (ok r) same (inl e) =
    let (user, old, found) = replay-user p dto r (sym e) in λ keyed. (old, ap stored found ∙ same)
replay-Returns k o p dto key (ok r) same (inr (e, failed)) = absurd (cc)
replay-Returns k o p dto key (throw e) same how = tt

module _ (store : OrderStore) (redis : Redis) (config : DirectoryConfig) {Broker : Type 0}
    (publish : DomainEvent → Act JsError Broker (Unit {0})) where
  abbrev pub serve : Asked → Request store.Db redis.State Broker CreateResult
  serve a =
      create store publish (exists redis config a.users) a.dto a.key a.correlation_id
        a.authorization a.stamp

  -- The requests in order, and the key and the outcome of each.
  abbrev pub run : List Asked → World store.Db redis.State Broker → List Outcome
  run [] w = []
  run (a ∷ rest) w = let (x, w') = serve a w in (a.key, x) ∷ run rest w'

  serve-IsLater :
      (a : Asked) (w : World store.Db redis.State Broker) → IsLater store w.db (serve a w).1.db
  serve-IsLater a w =
      create-Adds store publish (exists redis config a.users)
        (λ u c t old v later. rw ((exists-frame redis config a.users u c t v).0) later) a.dto
        a.correlation_id a.stamp a.key a.authorization w.db w (IsLater-refl store w.db)

  run-Returns :
      (k : String) (o p : Order) (asked : List Asked) (w : World store.Db redis.State Broker)
      → stored p ≡ stored o
      → IsPersisted store k p w.db
      → All (Returns k o) (run asked w)
  run-Returns k o p [] w same there = tt
  run-Returns k o p (a ∷ later) w same there =
      let (x, w') = serve a w in
      (
        returned x w' refl,
        run-Returns k o p later w' same (record {
          id = there.id;
          key_row = (serve-IsLater a w).keys k there.id there.key_row;
          order_row = (serve-IsLater a w).orders there.id p there.order_row;
        }),
      )
    where
      returned :
          (x : Result Exception CreateResult) (w' : World store.Db redis.State Broker)
          → serve a w ≡ (x, w')
          → Returns k o (a.key, x)
      returned (throw e) w' made = tt
      returned (ok r) w' made = λ keyed.
          replay-Returns k o p a.dto a.key (ok r) same
            (create-Repeated store publish (exists redis config a.users) a.correlation_id a.stamp
              a.authorization a.key k p a.dto w w' (ok r) keyed there made).1
            keyed

  Done-Settles :
      (a : Asked) (r : CreateResult) (w w' : World store.Db redis.State Broker) (later : List Asked)
      → Done store publish
          (exists redis config a.users)
          a.dto
          a.correlation_id
          a.stamp
          (given a.key)
          w.broker
          r
          w'
      → Settles (a.key, ok r) (run later w')
  Done-Settles a r w w' later (inl new) k keyed =
      run-Returns k r.order (stored r.order) later w' (stored_idem r.order) (record {
        id = r.order.id;
        key_row = subst (λ key. HasKey (store.key_row w'.db) key r.order.id) keyed new.keyed;
        order_row = new.row;
      })
  Done-Settles a r w w' later (inr old) k keyed =
      run-Returns k r.order r.order later w' refl
        (subst (λ key. IsKeyed store key r.order w'.db) keyed old.persisted)

  -- In any sequence of requests to create orders, once a request under an Idempotency-Key has
  -- returned an order, every later request under that key that returns one returns the same order,
  -- as not created, whatever its data and whatever failed in between: a key creates at most one
  -- order. The user id is compared in lower case, as the database stores it.
  pub run-OnePerKey :
      (asked : List Asked) (w : World store.Db redis.State Broker) → OnePerKey (run asked w)
  run-OnePerKey [] w = tt
  run-OnePerKey (a ∷ later) w =
      (settled (serve a w).0 (serve a w).1 refl, run-OnePerKey later (serve a w).1)
    where
      settled :
          (x : Result Exception CreateResult) (w' : World store.Db redis.State Broker)
          → serve a w ≡ (x, w')
          → Settles (a.key, x) (run later w')
      settled (throw e) w' made = tt
      settled (ok r) w' made = Done-Settles a r w w' later (
          create-Done store publish (exists redis config a.users) a.dto a.correlation_id a.stamp
            a.authorization (λ u c t v. (exists-frame redis config a.users u c t v).1) a.key w w' r
            made)
