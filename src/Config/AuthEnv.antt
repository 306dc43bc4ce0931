-- ===== src/Config/AuthEnv.antt =====
-- auth/auth.config.ts.
use platform_engineering_lab.Prelude.{
  ℕ, String, Bool, Option, Result, ok, throw, if◌then◌else◌, ◌>>=◌,
}
use platform_engineering_lab.Config.Values.{ConfigError, not_url, Raw, required, positive_int}

pub record AuthEnv : Type 0 where
  pub issuer : String
  pub audience : String
  pub jwks_url : String
  pub jwks_timeout_ms : ℕ
  pub jwks_cache_seconds : ℕ
  pub clock_tolerance_seconds : ℕ

module _ (number_of : String → Option ℕ) (is_url : String → Bool) where
  abbrev pub jwks : String → Result ConfigError String
  jwks v = if is_url v then ok v else throw (not_url "AUTH_JWKS_URL")

  unfoldable pub validate_auth_env : Raw → Result ConfigError AuthEnv
  validate_auth_env raw = do
    text ← required raw "AUTH_JWKS_URL"
    jwks_url ← jwks text
    issuer ← required raw "AUTH_ISSUER"
    audience ← required raw "AUTH_AUDIENCE"
    timeout ← positive_int number_of raw "AUTH_JWKS_TIMEOUT_MS" 2000 30000
    cache ← positive_int number_of raw "AUTH_JWKS_CACHE_SECONDS" 3600 86400
    tolerance ← positive_int number_of raw "AUTH_CLOCK_TOLERANCE_SECONDS" 5 60
    ok (record {
      issuer = issuer;
      audience = audience;
      jwks_url = jwks_url;
      jwks_timeout_ms = timeout;
      jwks_cache_seconds = cache;
      clock_tolerance_seconds = tolerance;
    })
