-- ===== src/Config/GatewayEnv.antt =====
-- config/env.ts of services/api-gateway.
use platform_engineering_lab.Prelude.{ℕ, String, Bool, Option, Result, ok, ◌>>=◌}
use platform_engineering_lab.Config.Values.{
  ConfigError, Raw, positive_int, url, max_safe_integer, text_or,
}
use platform_engineering_lab.Config.AuthEnv.{AuthEnv, validate_auth_env}

pub record Env : Type 0 where
  pub port : ℕ
  pub log_level : String
  pub user_service_url : String
  pub order_service_url : String
  pub notification_worker_url : String
  pub upstream_timeout_ms : ℕ
  pub rate_limit_per_minute : ℕ
  pub auth : AuthEnv

module _ (number_of : String → Option ℕ) (is_url : String → Bool) where
  unfoldable pub validate_env : Raw → Result ConfigError Env
  validate_env raw = do
    port ← positive_int number_of raw "PORT" 3000 65535
    users ← url is_url raw "USER_SERVICE_URL"
    orders ← url is_url raw "ORDER_SERVICE_URL"
    notifications ← url is_url raw "NOTIFICATION_WORKER_URL"
    timeout ← positive_int number_of raw "UPSTREAM_TIMEOUT_MS" 10000 max_safe_integer
    limit ← positive_int number_of raw "RATE_LIMIT_PER_MINUTE" 120 max_safe_integer
    auth ← validate_auth_env number_of is_url raw
    ok (record {
      port = port;
      log_level = text_or (raw "LOG_LEVEL") "info";
      user_service_url = users;
      order_service_url = orders;
      notification_worker_url = notifications;
      upstream_timeout_ms = timeout;
      rate_limit_per_minute = limit;
      auth = auth;
    })
