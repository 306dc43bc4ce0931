-- ===== src/Config/WorkerEnv.antt =====
-- config/env.ts of services/notification-worker.
pub mod Laws
use platform_engineering_lab.Prelude.{ℕ, String, Bool, Option, Result, ok, throw, ◌>>=◌}
use platform_engineering_lab.Config.Values.{ConfigError, Raw, required, positive_int, text_or}
use platform_engineering_lab.Config.AuthEnv.{AuthEnv, validate_auth_env}

pub record Env : Type 0 where
  pub port : ℕ
  pub log_level : String
  pub database_url : String
  pub rabbitmq_url : String
  pub worker_prefetch : ℕ
  pub max_attempts : ℕ
  pub auth : AuthEnv

module _ (number_of : String → Option ℕ) (is_url : String → Bool) where
  unfoldable pub validate_env : Raw → Result ConfigError Env
  validate_env raw = do
    port ← positive_int number_of raw "PORT" 3000 65535
    database ← required raw "DATABASE_URL"
    rabbitmq ← required raw "RABBITMQ_URL"
    prefetch ← positive_int number_of raw "WORKER_PREFETCH" 10 1000
    attempts ← positive_int number_of raw "MAX_ATTEMPTS" 3 100
    auth ← validate_auth_env number_of is_url raw
    ok (record {
      port = port;
      log_level = text_or (raw "LOG_LEVEL") "info";
      database_url = database;
      rabbitmq_url = rabbitmq;
      worker_prefetch = prefetch;
      max_attempts = attempts;
      auth = auth;
    })
