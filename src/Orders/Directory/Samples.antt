-- ===== src/Orders/Directory/Samples.antt =====
-- Redis while it is down, and a configuration of the lookups.
use platform_engineering_lab.Prelude.{throw}
use platform_engineering_lab.Orders.Cache.{Redis}
use platform_engineering_lab.Orders.Directory.{DirectoryConfig}

abbrev pub redis_down : Redis
redis_down = record {
  State = Unit;
  get = λ key s. (throw "ECONNREFUSED", s);
  set = λ key value ttl s. (throw "ECONNREFUSED", s);
}

abbrev pub directory_config : DirectoryConfig
directory_config = record {
  user_service_url = "http://user-service:3000";
  user_lookup_timeout_ms = 2000;
  user_cache_ttl_seconds = 60;
}
