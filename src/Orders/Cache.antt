-- ===== src/Orders/Cache.antt =====
-- infra/cache.service.ts. Redis is a parameter: what a command answers, or the message of the error
-- it fails with, and what it leaves. Every failure is a cache miss.
use platform_engineering_lab.Prelude.{
  ℕ, ◌*◌, min, String, Bool, true, false, Option, none, some, Result, ok, throw, List, [], ◌∷◌,
  ◌++◌,
}
use platform_engineering_lab.Orders.Types.{
  World, counted, cache_operation, get_hit, get_miss, get_error, set_ok, set_error, CacheOperation,
}

pub record Redis : Type 1 where
  pub State : Type 0
  pub get : String → State → Result String (Option String) × State
  pub set : String → String → ℕ → State → Result String (Unit {0}) × State

-- The constructor's retryStrategy: milliseconds before the next attempt to connect.
unfoldable pub retry_strategy : ℕ → ℕ
retry_strategy attempt = min (attempt * 200) 2000

abbrev pub get_operation : Result String (Option String) → CacheOperation
get_operation (ok none) = get_miss
get_operation (ok (some value)) = get_hit
get_operation (throw message) = get_error

abbrev pub or_null : Result String (Option String) → Option String
or_null (ok value) = value
or_null (throw message) = none

abbrev pub set_operation : Result String (Unit {0}) → CacheOperation
set_operation (ok done) = set_ok
set_operation (throw message) = set_error

module _ (redis : Redis) {Db Broker : Type 0} where
  unfoldable pub get :
      String → World Db redis.State Broker → Option String × World Db redis.State Broker
  get key w =
      let (answer, state) = redis.get key w.redis in
      (
        or_null answer,
        counted (cache_operation (get_operation answer)) (record w { redis = state }),
      )

  unfoldable pub set :
      String → String → ℕ → World Db redis.State Broker → World Db redis.State Broker
  set key value ttl_seconds w =
      let (answer, state) = redis.set key value ttl_seconds w.redis in
      counted (cache_operation (set_operation answer)) (record w { redis = state })

-- The client's events, and what its listeners log: changes of state only.
pub data RedisEvent : Type 0 where
  on_error ready : RedisEvent

pub data HealthLog : Type 0 where
  unavailable restored : HealthLog

unfoldable pub on_event : Bool → RedisEvent → Bool × List HealthLog
on_event true on_error = (false, unavailable ∷ [])
on_event false on_error = (false, [])
on_event true ready = (true, [])
on_event false ready = (true, restored ∷ [])

unfoldable pub health_log : Bool → List RedisEvent → List HealthLog
health_log healthy [] = []
health_log healthy (e ∷ es) = let (next, lines) = on_event healthy e in lines ++ health_log next es

-- The calls on the client that onModuleDestroy makes.
pub data ClientCall : Type 0 where
  quit disconnect : ClientCall

-- onModuleDestroy, from what `quit` comes to.
unfoldable pub on_module_destroy : Result String (Unit {0}) → List ClientCall
on_module_destroy (ok done) = quit ∷ []
on_module_destroy (throw message) = quit ∷ disconnect ∷ []
