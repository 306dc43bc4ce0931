-- ===== src/Orders/Directory.antt =====
-- users/user-directory.service.ts. user-service is a parameter: how it answers each attempt of one
-- lookup.
pub mod Laws
pub mod Refinement
pub mod Samples
mod Tests
use platform_engineering_lab.Prelude.{
  ℕ, zero, suc, ◌+◌, String, Bool, true, false, Option, none, some, Result, ok, throw,
  if◌then◌else◌, eqb, ltb, ◌==◌,
}
use Prim.Native.String
use platform_engineering_lab.Effects.{Act}
use platform_engineering_lab.Auth.Http.{HttpException}
use platform_engineering_lab.Database.Filter.{Exception, http}
use platform_engineering_lab.Orders.Types.{
  World, Request, counted, user_lookup, cache_hit, found, not_found, unavailable,
}
use platform_engineering_lab.Orders.Cache
use platform_engineering_lab.Orders.Cache.{Redis}

abbrev pub attempts : ℕ
attempts = 2

-- What `fetch` comes to: a response's status, or the message of what it throws.
pub data Fetched : Type 0 where
  response : ℕ → Fetched
  failed : String → Fetched

-- A request of fetchExists.
pub record UserRequest : Type 0 where
  pub url : String
  pub request_id : String
  pub authorization : Option String
  pub timeout_ms : ℕ

-- user-service as one lookup sees it: the answer to the request at each attempt.
abbrev pub UserService : Type 0
UserService = UserRequest → ℕ → Fetched

abbrev pub lookup_unavailable : HttpException
lookup_unavailable = record { status = 503; message = "User lookup is temporarily unavailable" }

pub data Step : Type 0 where
  answer : Bool → Step
  stop again : Step

-- One round of the loop: an answer, `break`, or the next attempt.
unfoldable pub step_of : Fetched → Step
step_of (response status) =
    if eqb status 200
    then answer true
    else if eqb status 404
    then answer false
    else if ltb status 500
    then stop
    else again
step_of (failed message) = again

-- The loop from an attempt on, with the attempts that are left; `none` where it ends without answer.
unfoldable pub fetch_from : (ℕ → Fetched) → ℕ → ℕ → Option Bool
fetch_from fetch zero attempt = none
fetch_from fetch (suc left) attempt =
    let rest = fetch_from fetch left (attempt + 1) in
    elim (step_of (fetch attempt)) [ answer b ↦ some b | stop ↦ none | again ↦ rest ]

-- How many requests the loop makes.
unfoldable pub requests_from : (ℕ → Fetched) → ℕ → ℕ → ℕ
requests_from fetch zero attempt = 0
requests_from fetch (suc left) attempt =
    let rest = requests_from fetch left (attempt + 1) in
    elim (step_of (fetch attempt)) [ answer b ↦ 1 | stop ↦ 1 | again ↦ suc rest ]

pub record DirectoryConfig : Type 0 where
  pub user_service_url : String
  pub user_lookup_timeout_ms : ℕ
  pub user_cache_ttl_seconds : ℕ

abbrev pub given : Option String → Option String
given none = none
given (some s) = if s == "" then none else some s

abbrev pub user_request : DirectoryConfig → String → String → Option String → UserRequest
user_request config user_id request_id authorization = record {
  url = String.◌++◌ config.user_service_url (String.◌++◌ "/v1/users/" user_id);
  request_id = request_id;
  authorization = given authorization;
  timeout_ms = config.user_lookup_timeout_ms;
}

abbrev pub cache_key : String → String
cache_key user_id = String.◌++◌ "user:" user_id

-- A cached value counts if it is a non-empty text.
abbrev pub is_truthy : Option String → Bool
is_truthy none = false
is_truthy (some s) = if s == "" then false else true

module _ (redis : Redis) (config : DirectoryConfig) (user_service : UserService)
    {Db Broker : Type 0} where
  unfoldable pub fetch_exists : String → String → Option String → Request Db redis.State Broker Bool
  fetch_exists user_id request_id authorization w =
      elim (fetch_from (user_service (user_request config user_id request_id authorization))
        attempts 1) [
          | some b ↦ (ok b, w)
          | none ↦ (throw (http lookup_unavailable), counted (user_lookup unavailable) w)
        ]

  -- Only positive answers are cached.
  abbrev pub remember :
      String
      → Result Exception Bool
      → World Db redis.State Broker
      → Result Exception Bool × World Db redis.State Broker
  remember key (ok true) w = (
    ok true,
    Cache.set redis key "1" config.user_cache_ttl_seconds (counted (user_lookup found) w),
  )
  remember key (ok false) w = (ok false, counted (user_lookup not_found) w)
  remember key (throw e) w = (throw e, w)

  abbrev pub after_cache :
      Bool → String → String → Option String → Request Db redis.State Broker Bool
  after_cache true user_id request_id authorization w = (ok true, counted (user_lookup cache_hit) w)
  after_cache false user_id request_id authorization w =
      let (answered, w') = fetch_exists user_id request_id authorization w in
      remember (cache_key user_id) answered w'

  unfoldable pub exists : String → String → Option String → Request Db redis.State Broker Bool
  exists user_id request_id authorization w =
      let (cached, w') = Cache.get redis (cache_key user_id) w in
      after_cache (is_truthy cached) user_id request_id authorization w'
