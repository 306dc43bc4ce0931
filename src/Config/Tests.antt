-- ===== src/Config/Tests.antt =====
-- Concrete environments.
use platform_engineering_lab.Prelude.{
  ℕ, ◌≤◌, refl, String, Bool, true, Option, none, some, ◌==◌, if◌then◌else◌,
}
use platform_engineering_lab.Config.Values.{Raw, required, positive_int}
use platform_engineering_lab.Config.AuthEnv.{validate_auth_env}
use platform_engineering_lab.Config.WorkerEnv.{Env, validate_env}
use platform_engineering_lab.Config.WorkerEnv.Laws.{validate_env-bounds}

abbrev some_number : String → Option ℕ
some_number v = if v == "7" then some 7 else none

abbrev any_url : String → Bool
any_url v = true

-- Every variable is set but the numbers' ones.
abbrev raw : Raw
raw name =
    if name == "WORKER_PREFETCH"
    then some "7"
    else if name == "AUTH_ISSUER"
    then some "i"
    else if name == "AUTH_AUDIENCE"
    then some "a"
    else if name == "AUTH_JWKS_URL"
    then some "http://id/keys/"
    else if name == "DATABASE_URL"
    then some "d"
    else if name == "RABBITMQ_URL"
    then some "r"
    else none

abbrev env : Env
env = record {
  port = 3000;
  log_level = "info";
  database_url = "d";
  rabbitmq_url = "r";
  worker_prefetch = 7;
  max_attempts = 3;
  auth = record {
    issuer = "i";
    audience = "a";
    jwks_url = "http://id/keys/";
    jwks_timeout_ms = 2000;
    jwks_cache_seconds = 3600;
    clock_tolerance_seconds = 5;
  };
}

validate_env-bounds_example :
    ((1 ≤ env.port) × (env.port ≤ 65535))
    × ((1 ≤ env.worker_prefetch) × (env.worker_prefetch ≤ 1000))
    × ((1 ≤ env.max_attempts) × (env.max_attempts ≤ 100))
unfolding validate_env validate_auth_env required positive_int
validate_env-bounds_example = validate_env-bounds some_number any_url raw env refl
