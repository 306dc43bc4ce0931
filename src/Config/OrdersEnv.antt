-- ===== src/Config/OrdersEnv.antt =====
-- config/env.ts of services/order-service.
use platform_engineering_lab.Prelude.{ℕ, String, Bool, Option, Result, ok, ◌>>=◌}
use platform_engineering_lab.Config.Values.{
  ConfigError, Raw, required, positive_int, max_safe_integer, text_or, without_slashes,
}
use platform_engineering_lab.Config.AuthEnv.{AuthEnv, validate_auth_env}

pub record Env : Type 0 where
  pub port : ℕ
  pub log_level : String
  pub database_url : String
  pub redis_url : String
  pub rabbitmq_url : String
  pub user_service_url : String
  pub user_lookup_timeout_ms : ℕ
  pub user_cache_ttl_seconds : ℕ
  pub auth : AuthEnv

module _ (number_of : String → Option ℕ) (is_url : String → Bool) where
  unfoldable pub validate_env : Raw → Result ConfigError Env
  validate_env raw = do
    port ← positive_int number_of raw "PORT" 3000 65535
    database ← required raw "DATABASE_URL"
    redis ← required raw "REDIS_URL"
    rabbitmq ← required raw "RABBITMQ_URL"
    users ← required raw "USER_SERVICE_URL"
    timeout ← positive_int number_of raw "USER_LOOKUP_TIMEOUT_MS" 2000 max_safe_integer
    ttl ← positive_int number_of raw "USER_CACHE_TTL_SECONDS" 60 max_safe_integer
    auth ← validate_auth_env number_of is_url raw
    ok (record {
      port = port;
      log_level = text_or (raw "LOG_LEVEL") "info";
      database_url = database;
      redis_url = redis;
      rabbitmq_url = rabbitmq;
      user_service_url = without_slashes users;
      user_lookup_timeout_ms = timeout;
      user_cache_ttl_seconds = ttl;
      auth = auth;
    })
