-- ===== src/Orders/Directory/Laws.antt =====
-- When a lookup answers, how often it asks, and that the cache only saves requests.
use platform_engineering_lab.Prelude.{
  ℕ, ◌≤◌, ◌≡◌, ◌↔◌, ◌⊎◌, inl, inr, refl, ap, String, Bool, true, false, Option, none, some, Result,
  ok, throw, arith,
}
use platform_engineering_lab.Database.Filter.{Exception, http}
use platform_engineering_lab.Orders.Types.{World}
use platform_engineering_lab.Orders.Cache
use platform_engineering_lab.Orders.Cache.{Redis, or_null}
use platform_engineering_lab.Orders.Directory.{
  Fetched, response, failed, answer, again, step_of, fetch_from, requests_from, attempts,
  DirectoryConfig, UserService, user_request, cache_key, is_truthy, fetch_exists, exists,
  lookup_unavailable,
}

-- The lookup makes one or two requests, and a second one only where the first failed, or met a status
-- of 500 or above.
pub requests_bounded :
    (fetch : ℕ → Fetched)
    → (1 ≤ requests_from fetch attempts 1)
      × (requests_from fetch attempts 1 ≤ 2)
      × ((requests_from fetch attempts 1 ≡ 2) ↔ (step_of (fetch 1) ≡ again))
unfolding requests_from
requests_bounded fetch = ground arith

-- The attempt that answers.
abbrev pub Answers : (ℕ → Fetched) → ℕ → Type 0
Answers fetch status =
    (fetch 1 ≡ response status) ⊎ ((step_of (fetch 1) ≡ again) × (fetch 2 ≡ response status))

status_200 : (f : Fetched) → step_of f ≡ answer true → f ≡ response 200
unfolding step_of
status_200 (response s) h = ground arith
status_200 (failed m) h = cc

status_404 : (f : Fetched) → step_of f ≡ answer false → f ≡ response 404
unfolding step_of
status_404 (response s) h = ground arith
status_404 (failed m) h = cc

two_rounds :
    (fetch : ℕ → Fetched) (b : Bool)
    → fetch_from fetch attempts 1 ≡ some b
    → (step_of (fetch 1) ≡ answer b)
      ⊎ ((step_of (fetch 1) ≡ again) × (step_of (fetch 2) ≡ answer b))
unfolding fetch_from
two_rounds fetch b h = ground arith

answered :
    (fetch : ℕ → Fetched) (b : Bool) (status : ℕ)
    → step_of (response status) ≡ answer b
    → Answers fetch status
    → fetch_from fetch attempts 1 ≡ some b
unfolding fetch_from
answered fetch b status e (inl first) = ground (arith, ap step_of first)
answered fetch b status e (inr (again_at, second)) = ground (arith, ap step_of second)

step_of-200 : step_of (response 200) ≡ answer true
unfolding step_of
step_of-200 = refl

step_of-404 : step_of (response 404) ≡ answer false
unfolding step_of
step_of-404 = refl

-- The lookup says "exists" exactly when user-service answered 200, and "does not exist" exactly when
-- it answered 404, at the first request or at the retry; every other outcome is no answer.
pub fetch_from_iff :
    (fetch : ℕ → Fetched)
    → ((fetch_from fetch attempts 1 ≡ some true) ↔ Answers fetch 200)
      × ((fetch_from fetch attempts 1 ≡ some false) ↔ Answers fetch 404)
fetch_from_iff fetch = (
  (
    λ h. elim (two_rounds fetch true h) [
      | inl e ↦ inl (status_200 (fetch 1) e)
      | inr (a, e) ↦ inr (a, status_200 (fetch 2) e)
    ],
    answered fetch true 200 step_of-200,
  ),
  (
    λ h. elim (two_rounds fetch false h) [
      | inl e ↦ inl (status_404 (fetch 1) e)
      | inr (a, e) ↦ inr (a, status_404 (fetch 2) e)
    ],
    answered fetch false 404 step_of-404,
  ),
)

abbrev pub lookup_result : Option Bool → Result Exception Bool
lookup_result (some b) = ok b
lookup_result none = throw (http lookup_unavailable)

module _ (redis : Redis) (config : DirectoryConfig) (user_service : UserService)
    {Db Broker : Type 0} where
  -- Whatever Redis answers short of a cached value, the lookup's answer is that of user-service, or
  -- 503 where user-service gives none: an outage of Redis does not change it.
  pub exists-no_cache :
      (user_id request_id : String) (authorization : Option String)
      (w : World Db redis.State Broker)
      → is_truthy (Cache.get redis (cache_key user_id) w).0 ≡ false
      → (exists redis config user_service user_id request_id authorization w).0
        ≡ lookup_result (
            fetch_from
              (user_service (user_request config user_id request_id authorization))
              attempts
              1)
  unfolding exists fetch_exists
  exists-no_cache user_id request_id authorization w h = ground arith

  -- A lookup leaves the database and the publisher alone.
  pub exists-frame :
      (user_id request_id : String) (authorization : Option String)
      (w : World Db redis.State Broker)
      → let w' = (exists redis config user_service user_id request_id authorization w).1 in
        (w'.db ≡ w.db) × (w'.broker ≡ w.broker)
  unfolding exists fetch_exists Cache.get Cache.set
  exists-frame user_id request_id authorization w = ground arith
