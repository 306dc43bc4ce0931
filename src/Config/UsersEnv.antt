-- ===== src/Config/UsersEnv.antt =====
-- config/env.ts of services/user-service, which reads its two variables in line.
use platform_engineering_lab.Prelude.{ℕ, String, Bool, Option, Result, ok, ◌>>=◌}
use platform_engineering_lab.Config.Values.{ConfigError, Raw, required, positive_int, text_or}
use platform_engineering_lab.Config.AuthEnv.{AuthEnv, validate_auth_env}

pub record Env : Type 0 where
  pub port : ℕ
  pub log_level : String
  pub database_url : String
  pub auth : AuthEnv

module _ (number_of : String → Option ℕ) (is_url : String → Bool) where
  unfoldable pub validate_env : Raw → Result ConfigError Env
  validate_env raw = do
    database ← required raw "DATABASE_URL"
    port ← positive_int number_of raw "PORT" 3000 65535
    auth ← validate_auth_env number_of is_url raw
    ok (record {
      port = port;
      log_level = text_or (raw "LOG_LEVEL") "info";
      database_url = database;
      auth = auth;
    })
