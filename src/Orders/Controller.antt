-- ===== src/Orders/Controller.antt =====
-- orders/orders.controller.ts. A call comes behind the guard, with the principal that it has set;
-- `id` and the fields of the body have passed the validation pipes of the framework.
pub mod Laws
mod Tests
use Prim.Native.String
use platform_engineering_lab.Prelude.{
  ℕ, suc, String, Bool, true, false, Option, none, some, Result, ok, throw, ◌==◌, ◌||◌,
  if◌then◌else◌, ltb,
}
use platform_engineering_lab.Effects.{Act, ◌>>=◌, ◌>>◌, pure, raise}
use platform_engineering_lab.Auth.Http.{HttpException, Refusal}
use platform_engineering_lab.Auth.Verifier.{Principal}
use platform_engineering_lab.Auth.Ownership.{assert_self_or_admin, owner_or_not_found}
use platform_engineering_lab.Database.Errors.{JsError}
use platform_engineering_lab.Database.Filter.{Exception, http}
use platform_engineering_lab.Orders.Types.{
  CreateOrderDto, Order, DomainEvent, World, Request, counted, auth_rejection,
}
use platform_engineering_lab.Orders.Store.{OrderStore}
use platform_engineering_lab.Orders.Service
use platform_engineering_lab.Orders.Service.{CreateResult, Stamp}

-- idempotencyKey.length; a header's text has one unit for each character.
pub text_length : String → ℕ
text_length String.[] = 0
text_length (String.◌∷◌ c s) = suc (text_length s)

abbrev pub bad_key : HttpException
bad_key = record { status = 400; message = "Idempotency-Key must be 1-200 characters" }

unfoldable pub is_bad_key : Option String → Bool
is_bad_key none = false
is_bad_key (some key) = (key == "") || ltb 200 (text_length key)

-- A status and the order that is the body.
abbrev pub Reply : Type 0
Reply = ℕ × Order

abbrev pub reply_of : CreateResult → Reply
reply_of r = (if r.created then 201 else 200, r.order)

module _ {Db Redis Broker : Type 0} where
  -- A refusal is counted and thrown.
  abbrev pub allow : Result Refusal (Unit {0}) → Request Db Redis Broker (Unit {0})
  allow (ok done) w = (ok tt, w)
  allow (throw r) w = (throw (http r.exception), counted (auth_rejection r.reason) w)

  abbrev pub check_key : Bool → Request Db Redis Broker (Unit {0})
  check_key true = raise (http bad_key)
  check_key false = pure tt

module _ (store : OrderStore) {Redis Broker : Type 0} where
  -- `ownerOrNotFound`, on the order that the service has found.
  abbrev pub shown_to : Principal → Order → Request store.Db Redis Broker Order
  shown_to principal order =
      allow (owner_or_not_found principal order.user_id "Order not found") >> pure order

  unfoldable pub find_one : Principal → String → Request store.Db Redis Broker Order
  find_one principal id = Service.find_one store id >>= shown_to principal

  module _ (publish : DomainEvent → Act JsError Broker (Unit {0}))
      (exists : String → String → Option String → Request store.Db Redis Broker Bool) where
    unfoldable pub create :
        Principal
        → CreateOrderDto
        → Option String
        → String
        → Option String
        → Stamp
        → Request store.Db Redis Broker Reply
    create principal dto idempotency_key request_id authorization stamp = do
      allow (assert_self_or_admin principal dto.user_id)
      check_key (is_bad_key idempotency_key)
      r ← Service.create store publish exists dto idempotency_key request_id authorization stamp
      pure (reply_of r)
