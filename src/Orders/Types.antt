-- ===== src/Orders/Types.antt =====
-- The data of order-service: orders/create-order.dto.ts, orders/order.entity.ts, the DomainEvent of
-- infra/event-publisher.service.ts, and the counters of orders/orders.metrics.ts.
use platform_engineering_lab.Prelude.{ℕ, String, List, ◌++◌, [], ◌∷◌}
use platform_engineering_lab.Effects.{Act}
use platform_engineering_lab.Database.Filter.{Exception}

-- An amount counts hundredths, which the validation of the request makes exact.
pub record CreateOrderDto : Type 0 where
  pub user_id : String
  pub amount : ℕ
  pub description : String

pub record Order : Type 0 where
  pub id : String
  pub user_id : String
  pub amount : ℕ
  pub description : String
  pub status : String
  pub created_at : ℕ

pub record OrderData : Type 0 where
  pub order_id : String
  pub user_id : String
  pub amount : ℕ
  pub description : String

pub record DomainEvent : Type 0 where
  pub event_id : String
  pub type_name : String
  pub occurred_at : String
  pub correlation_id : String
  pub payload : OrderData

-- outcome: cache_hit | found | not_found | unavailable
pub data Lookup : Type 0 where
  cache_hit found not_found unavailable : Lookup

-- operation: get | set; outcome: hit | miss | error | ok
pub data CacheOperation : Type 0 where
  get_hit get_miss get_error set_ok set_error : CacheOperation

-- The increments of the service's counters.
pub data Count : Type 0 where
  order_created event_publish_failure database_unavailable : Count
  user_lookup : Lookup → Count
  cache_operation : CacheOperation → Count
  auth_rejection : String → Count

-- The state that a request works on: the database, Redis, the publisher's connection, and the
-- increments in order.
pub record World (Db Redis Broker : Type 0) : Type 0 where
  pub db : Db
  pub redis : Redis
  pub broker : Broker
  pub counts : List Count

-- What a method that answers a request does.
abbrev pub Request : Type 0 → Type 0 → Type 0 → Type 0 → Type 0
Request Db Redis Broker A = Act Exception (World Db Redis Broker) A

module _ {Db Redis Broker : Type 0} where
  abbrev pub counted : Count → World Db Redis Broker → World Db Redis Broker
  counted c w = record w { counts = w.counts ++ c ∷ [] }
