-- ===== src/Orders/Directory/Tests.antt =====
-- A lookup while Redis is down.
use platform_engineering_lab.Prelude.{ℕ, ◌≡◌, refl, true, none, [], ok, if◌then◌else◌, eqb}
use platform_engineering_lab.Orders.Types.{World}
use platform_engineering_lab.Orders.Cache
use platform_engineering_lab.Orders.Cache.{Redis}
use platform_engineering_lab.Orders.Directory.Samples.{redis_down, directory_config}
use platform_engineering_lab.Orders.Directory.{
  Fetched, response, failed, fetch_from, UserService, exists, fetch_exists, step_of,
}

-- Fails once.
abbrev flaky : ℕ → Fetched
flaky n = if eqb n 1 then failed "timeout" else response 200

abbrev users : UserService
users request attempt = flaky attempt

abbrev before : World Unit Unit Unit
before = record { db = tt; redis = tt; broker = tt; counts = [] }

-- The second request answers, and the failures of Redis are misses.
found_at_last : (exists redis_down directory_config users "ab" "r" none before).0 ≡ ok true
unfolding exists fetch_exists fetch_from step_of Cache.get Cache.set
found_at_last = refl
