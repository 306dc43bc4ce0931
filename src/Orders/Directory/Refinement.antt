-- ===== src/Orders/Directory/Refinement.antt =====
-- UserDirectory.exists, with its retries and its cache, over time, against any user-service that tells
-- the truth. The service of this repository is UserLookup.Refinement.

use text.Mathlib.TextLemmas.{append_cancel_left}
use platform_engineering_lab.Prelude.{
  ℕ, ◌+◌, ◌≡◌, ◌⊎◌, inl, inr, refl, sym, ap, ◌∙◌, String, Bool, true, false, Option, none, some,
  Result, ok, throw, List, [], ◌∷◌,
}
use platform_engineering_lab.Database.Filter.{Exception, http}
use platform_engineering_lab.Orders.Types.{World, counted, user_lookup, unavailable}
use platform_engineering_lab.Orders.Cache
use platform_engineering_lab.Orders.Cache.{Redis, or_null}
use platform_engineering_lab.Orders.Directory.{
  Fetched, response, fetch_from, attempts, DirectoryConfig, UserService, user_request, cache_key,
  is_truthy, fetch_exists, remember, after_cache, exists, lookup_unavailable,
}
use platform_engineering_lab.Orders.Directory.Laws.{Answers, fetch_from_iff}

-- What Redis documents of GET and SET: a value that is answered is held, a command adds no other value
-- than the one it sets, and may lose any (expiry, eviction, a restart) or fail.
pub record RedisLaws (redis : Redis) : Type 1 where
  pub Holds : redis.State → String → String → Type 0
  pub get_held :
      (key value : String) (s : redis.State)
      → (redis.get key s).0 ≡ ok (some value)
      → Holds s key value
  pub get_adds :
      (key k value : String) (s : redis.State) → Holds (redis.get key s).1 k value → Holds s k value
  pub set_adds :
      (key v : String) (ttl : ℕ) (k value : String) (s : redis.State)
      → Holds (redis.set key v ttl s).1 k value
      → (k ≡ key) ⊎ Holds s k value

-- user-service moves to another state, or order-service looks a user up with a caller's token.
pub data Event (Users : Type 0) : Type 0 where
  moves : Users → Event Users
  lookup : (user_id request_id : String) → Option String → Event Users

module _ {Users : Type 0} (has : Users → String → Bool) where
  -- The specification: a lookup answers whether the service has the user at its time.
  abbrev pub answers : List (Event Users) → Users → List Bool
  answers [] users = []
  answers (moves later ∷ es) users = answers es later
  answers (lookup u request_id authorization ∷ es) users = has users u ∷ answers es users

  -- No user is ever removed.
  abbrev pub IsGrowing : List (Event Users) → Users → Type 0
  IsGrowing [] users = Unit
  IsGrowing (moves later ∷ es) users =
      ((u : String) → has users u ≡ true → has later u ≡ true) × IsGrowing es later
  IsGrowing (lookup u request_id authorization ∷ es) users = IsGrowing es users

-- Each lookup is one that the caller may make.
abbrev pub AllMay :
    {Users : Type 0} → (String → Option String → Type 0) → List (Event Users) → Type 0
AllMay May [] = Unit
AllMay May (moves later ∷ es) = AllMay May es
AllMay May (lookup u request_id authorization ∷ es) = May u authorization × AllMay May es

-- The answer, or 503.
abbrev pub Matches : Result Exception Bool → Bool → Type 0
Matches (ok b) a = b ≡ a
Matches (throw e) a = e ≡ http lookup_unavailable

abbrev pub AllMatch : List (Result Exception Bool) → List Bool → Type 0
AllMatch [] [] = Unit
AllMatch [] (a ∷ as') = ⊥
AllMatch (r ∷ rs) [] = ⊥
AllMatch (r ∷ rs) (a ∷ as') = Matches r a × AllMatch rs as'

module _ {Users : Type 0} (has : Users → String → Bool) (May : String → Option String → Type 0)
    (config : DirectoryConfig) (user_service : ℕ → Users → UserService) where
  -- To the n-th lookup, if the caller may make it, the service answers 200 only if it has the user, and
  -- 404 only if it has not; any other status, or nothing, whenever it likes.
  pub record IsHonest : Type 0 where
    pub found :
        (n : ℕ) (users : Users) (u request_id : String) (authorization : Option String)
        (attempt : ℕ)
        → May u authorization
        → user_service n users (user_request config u request_id authorization) attempt
          ≡ response 200
        → has users u ≡ true
    pub missing :
        (n : ℕ) (users : Users) (u request_id : String) (authorization : Option String)
        (attempt : ℕ)
        → May u authorization
        → user_service n users (user_request config u request_id authorization) attempt
          ≡ response 404
        → has users u ≡ false

  module _ (honest : IsHonest) (users : Users) (n : ℕ) (u request_id : String)
      (authorization : Option String) (may : May u authorization) where
    abbrev asked : ℕ → Fetched
    asked = user_service n users (user_request config u request_id authorization)

    from_200 : Answers asked 200 → has users u ≡ true
    from_200 (inl first) = honest.found n users u request_id authorization 1 may first
    from_200 (inr (retries, second)) = honest.found n users u request_id authorization 2 may second

    from_404 : Answers asked 404 → has users u ≡ false
    from_404 (inl first) = honest.missing n users u request_id authorization 1 may first
    from_404 (inr (retries, second)) =
        honest.missing n users u request_id authorization 2 may second

    fetched_right : (b : Bool) → fetch_from asked attempts 1 ≡ some b → has users u ≡ b
    fetched_right true h = from_200 ((fetch_from_iff asked).0.0 h)
    fetched_right false h = from_404 ((fetch_from_iff asked).1.0 h)

module _ {Users : Type 0} (has : Users → String → Bool) (redis : Redis)
    (laws : RedisLaws redis) where
  -- Only users that the service has are cached.
  abbrev pub IsSound : Users → redis.State → Type 0
  IsSound users s = (u value : String) → laws.Holds s (cache_key u) value → has users u ≡ true

  set-IsSound :
      (users : Users) (u : String) (ttl : ℕ) (s : redis.State)
      → has users u ≡ true
      → IsSound users s
      → IsSound users (redis.set (cache_key u) "1" ttl s).1
  set-IsSound users u ttl s there sound v value held =
      elim (laws.set_adds (cache_key u) "1" ttl (cache_key v) value s held) [
        | inl same ↦ ap (has users) (append_cancel_left "user:" v u same) ∙ there
        | inr before ↦ sound v value before
      ]

  moved-IsSound :
      (users later : Users) (s : redis.State)
      → ((u : String) → has users u ≡ true → has later u ≡ true)
      → IsSound users s
      → IsSound later s
  moved-IsSound users later s grows sound v value held = grows v (sound v value held)

hit-registered :
    (known : Bool) (r : Result String (Option String))
    → ((value : String) → r ≡ ok (some value) → known ≡ true)
    → is_truthy (or_null r) ≡ true
    → known ≡ true
hit-registered known (ok (some value)) h e = h value refl
hit-registered known (ok none) h e = absurd (cc)
hit-registered known (throw m) h e = absurd (cc)

module _ {Users : Type 0} (has : Users → String → Bool) (redis : Redis) (laws : RedisLaws redis)
    (config : DirectoryConfig) (user_service : ℕ → Users → UserService) {Db Broker : Type 0} where
  -- The lookup has the right answer, and leaves a sound cache.
  abbrev Right : Users → String → Result Exception Bool × World Db redis.State Broker → Type 0
  Right users u (r, w) = Matches r (has users u) × IsSound has redis laws users w.redis

  remember-Right :
      (users : Users) (n : ℕ) (u : String) (r : Result Exception Bool)
      (w : World Db redis.State Broker)
      → Right users u (r, w)
      → Right users u (remember redis config (user_service n users) (cache_key u) r w)
  unfolding Cache.set
  remember-Right users n u (ok true) w (right, sound) = (
    right,
    set-IsSound has redis laws users u config.user_cache_ttl_seconds w.redis (sym right) sound,
  )
  remember-Right users n u (ok false) w (right, sound) = (right, sound)
  remember-Right users n u (throw e) w (right, sound) = (right, sound)

  answered-Right :
      (users : Users) (u : String) (w : World Db redis.State Broker)
      → IsSound has redis laws users w.redis
      → (answer : Option Bool) → ((b : Bool) → answer ≡ some b → has users u ≡ b)
      → Right users u (elim answer as (λ _. Result Exception Bool × World Db redis.State Broker) [
        | some b ↦ (ok b, w)
        | none ↦ (throw (http lookup_unavailable), counted (user_lookup unavailable) w)
      ])
  answered-Right users u w sound none h = (refl, sound)
  answered-Right users u w sound (some b) h = (sym (h b refl), sound)

  module _ (May : String → Option String → Type 0) (honest : IsHonest has May config user_service)
      (users : Users) (n : ℕ) (u request_id : String) (authorization : Option String)
      (may : May u authorization) where
    fetch_exists-Right :
        (w : World Db redis.State Broker)
        → IsSound has redis laws users w.redis
        → Right users u
            (fetch_exists redis config (user_service n users) u request_id authorization w)
    unfolding fetch_exists
    fetch_exists-Right w sound =
        answered-Right users u w sound
          (fetch_from (user_service n users (user_request config u request_id authorization))
            attempts 1)
          (λ b h.
            fetched_right has May config user_service honest users n u request_id authorization may
              b h)

    after_cache-Right :
        (hit : Bool) (w : World Db redis.State Broker)
        → (hit ≡ true → has users u ≡ true)
        → IsSound has redis laws users w.redis
        → Right users u
            (after_cache redis config (user_service n users) hit u request_id authorization w)
    after_cache-Right true w cached sound = (sym (cached refl), sound)
    after_cache-Right false w cached sound =
        let (answered, w') =
          fetch_exists redis config (user_service n users) u request_id authorization w in
        remember-Right users n u answered w' (fetch_exists-Right w sound)

    exists-Right :
        (w : World Db redis.State Broker)
        → IsSound has redis laws users w.redis
        → Right users u (exists redis config (user_service n users) u request_id authorization w)
    unfolding exists Cache.get
    exists-Right w sound =
        after_cache-Right (is_truthy (Cache.get redis (cache_key u) w).0)
          (Cache.get redis (cache_key u) w).1
          (hit-registered (has users u) (redis.get (cache_key u) w.redis).0
            (λ value e. sound u value (laws.get_held (cache_key u) value w.redis e)))
          (λ v value held.
            sound v value (laws.get_adds (cache_key u) (cache_key v) value w.redis held))

  -- The directory over time: each lookup meets the service of its time and the cache that the earlier
  -- ones left.
  abbrev pub run :
      List (Event Users) → Users → ℕ → World Db redis.State Broker → List (Result Exception Bool)
  run [] users n w = []
  run (moves later ∷ es) users n w = run es later n w
  run (lookup u request_id authorization ∷ es) users n w =
      (exists redis config (user_service n users) u request_id authorization w).0
      ∷ run es users (n + 1)
          (exists redis config (user_service n users) u request_id authorization w).1

  pub run-AllMatch :
      (May : String → Option String → Type 0) (honest : IsHonest has May config user_service)
      (es : List (Event Users)) (users : Users) (n : ℕ) (w : World Db redis.State Broker)
      → AllMay May es
      → IsGrowing has es users
      → IsSound has redis laws users w.redis
      → AllMatch (run es users n w) (answers has es users)
  run-AllMatch May honest [] users n w may grows sound = tt
  run-AllMatch May honest (moves later ∷ es) users n w may (grows, still) sound =
      run-AllMatch May honest es later n w may still
        (moved-IsSound has redis laws users later w.redis grows sound)
  run-AllMatch May honest (lookup u request_id authorization ∷ es) users n w (may, all) grows
        sound =
      let (right, still) = exists-Right May honest users n u request_id authorization may w sound in
      (
        right,
        run-AllMatch May honest es users (n + 1)
            (exists redis config (user_service n users) u request_id authorization w).1 all grows
            still,
      )
