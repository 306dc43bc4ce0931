-- ===== src/Orders/App.antt =====
-- The two routes of orders/orders.controller.ts, from the request as it arrives to its answer.
-- class-validator and the pipes of NestJS are parameters: what ValidationPipe makes of a body, and
-- ParseUUIDPipe of an id.
pub mod Laws
mod Tests
use platform_engineering_lab.Prelude.{
  ℕ, String, false, List, [], ◌∷◌, Option, some, Result, ok, throw,
}
use platform_engineering_lab.Effects.{Act, ◌>>=◌, pure, lift}
use platform_engineering_lab.Auth.Http.{HttpException}
use platform_engineering_lab.Auth.Verifier.{Principal, VerifyError}
use platform_engineering_lab.Auth.Guard.{Route}
use platform_engineering_lab.Database.Errors.{JsError}
use platform_engineering_lab.Database.Filter.{Exception}
use platform_engineering_lab.Pipeline.{Answer, piped, serve}
use platform_engineering_lab.Upstream.{gen_req_id}
use platform_engineering_lab.Orders.Types.{
  CreateOrderDto, Order, DomainEvent, World, Request, counted, auth_rejection, database_unavailable,
}
use platform_engineering_lab.Orders.Cache.{Redis}
use platform_engineering_lab.Orders.Directory.{DirectoryConfig, UserService, exists}
use platform_engineering_lab.Orders.Store.{OrderStore}
use platform_engineering_lab.Orders.Service.{Stamp}
use platform_engineering_lab.Orders.Controller

-- @Roles('customer', 'admin')
abbrev pub orders_route : Route
orders_route = record { is_public = false; roles = some ("customer" ∷ "admin" ∷ []) }

-- A request: its headers, the body or the id, the id that randomUUID would give it, and what
-- publishCreated stamps on an event.
pub record Incoming (Body : Type 0) : Type 0 where
  pub request_id : Option String
  pub authorization : Option String
  pub idempotency_key : Option String
  pub body : Body
  pub fresh : String
  pub stamp : Stamp

-- What the service is started with, and the parties that it talks to.
pub record Deployment (Body : Type 0) : Type 1 where
  pub store : OrderStore
  pub redis : Redis
  pub config : DirectoryConfig
  pub users : UserService
  pub Broker : Type 0
  pub publish : DomainEvent → Act JsError Broker (Unit {0})
  pub verify : String → Result VerifyError Principal
  pub validation_pipe : Body → Result HttpException CreateOrderDto
  pub parse_uuid_pipe : String → Result HttpException String

module _ {Body : Type 0} (d : Deployment Body) where
  abbrev pub State : Type 0
  State = World d.store.Db d.redis.State d.Broker

  abbrev pub reject : String → State → State
  reject reason = counted (auth_rejection reason)

  abbrev pub outage : State → State
  outage = counted database_unavailable

  -- req.id
  abbrev pub id_of : {B : Type 0} → Incoming B → String
  id_of r = gen_req_id r.request_id r.fresh

  unfoldable pub created_by : Incoming Body → Principal → Act Exception State (ℕ × Order)
  created_by r principal = do
    dto ← lift (piped (d.validation_pipe r.body))
    Controller.create d.store d.publish (exists d.redis d.config d.users) principal dto
        r.idempotency_key (id_of r) r.authorization r.stamp

  -- POST /v1/orders
  unfoldable pub post_order : Incoming Body → State → Answer Order × State
  post_order r = serve reject outage d.verify orders_route r.authorization (created_by r)

  unfoldable pub shown_to : Incoming String → Principal → Act Exception State (ℕ × Order)
  shown_to r principal = do
    id ← lift (piped (d.parse_uuid_pipe r.body))
    order ← Controller.find_one d.store principal id
    pure (200, order)

  -- GET /v1/orders/:id
  unfoldable pub get_order : Incoming String → State → Answer Order × State
  get_order r = serve reject outage d.verify orders_route r.authorization (shown_to r)
