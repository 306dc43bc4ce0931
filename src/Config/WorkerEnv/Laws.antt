-- ===== src/Config/WorkerEnv/Laws.antt =====
-- What a configuration that is accepted promises.
use platform_engineering_lab.Prelude.{
  ℕ, ◌≤◌, ◌≡◌, ap, String, Bool, Option, ok, throw, bind-ok, arith,
}
use platform_engineering_lab.Config.Values.{Raw, required, positive_int, positive_int_iff}
use platform_engineering_lab.Config.AuthEnv.{validate_auth_env}
use platform_engineering_lab.Config.WorkerEnv.{Env, validate_env}

between :
    (number_of : String → Option ℕ) (raw : Raw) (name : String) (fallback max n m : ℕ)
    → positive_int number_of raw name fallback max ≡ ok n
    → n ≡ m
    → (1 ≤ m) × (m ≤ max)
between number_of raw name fallback max n m e same =
    let (low, high, from) = (positive_int_iff number_of raw name fallback max n).0 e in
    (omega (arith, low, same), omega (arith, high, same))

-- An accepted configuration of the worker has a port from 1 to 65535, a prefetch from 1 to 1000 and
-- from 1 to 100 attempts.
pub validate_env-bounds :
    (number_of : String → Option ℕ) (is_url : String → Bool) (raw : Raw) (env : Env)
    → validate_env number_of is_url raw ≡ ok env
    → ((1 ≤ env.port) × (env.port ≤ 65535))
      × ((1 ≤ env.worker_prefetch) × (env.worker_prefetch ≤ 1000))
      × ((1 ≤ env.max_attempts) × (env.max_attempts ≤ 100))
unfolding validate_env
validate_env-bounds number_of is_url raw env h =
    let (port, e₁, h₁) = bind-ok (positive_int number_of raw "PORT" 3000 65535) _ h in
    let (database, e₂, h₂) = bind-ok (required raw "DATABASE_URL") _ h₁ in
    let (rabbitmq, e₃, h₃) = bind-ok (required raw "RABBITMQ_URL") _ h₂ in
    let (prefetch, e₄, h₄) = bind-ok (positive_int number_of raw "WORKER_PREFETCH" 10 1000) _ h₃ in
    let (attempts, e₅, h₅) = bind-ok (positive_int number_of raw "MAX_ATTEMPTS" 3 100) _ h₄ in
    let (auth, e₆, h₆) = bind-ok (validate_auth_env number_of is_url raw) _ h₅ in
    let same = ap (λ r. elim r as (λ _. Env) [ ok a ↦ a | throw e ↦ env ]) h₆ in
    (
      between number_of raw "PORT" 3000 65535 port env.port e₁ (ap (λ x. x.port) same),
      between number_of raw "WORKER_PREFETCH" 10 1000 prefetch env.worker_prefetch e₄
          (ap (λ x. x.worker_prefetch) same),
      between number_of raw "MAX_ATTEMPTS" 3 100 attempts env.max_attempts e₅
          (ap (λ x. x.max_attempts) same),
    )
