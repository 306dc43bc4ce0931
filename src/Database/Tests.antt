-- ===== src/Database/Tests.antt =====
-- Concrete errors.
use platform_engineering_lab.Prelude.{ℕ, suc, ◌≤◌, ◌≡◌, ◌↔◌, true, false, none, some}
use platform_engineering_lab.Database.Errors.{JsError, nil, error}
use platform_engineering_lab.Database.Filter.{
  http, failure, database_down, Wraps, filter_exception, filter_exception_iff,
}

abbrev refused : JsError
refused = error true none none none (error false (some "ECONNREFUSED") none none nil nil) nil

filter_exception_iff_example :
    (filter_exception (failure refused) ≡ (true, http database_down))
    ↔ ((err : JsError) × (failure refused ≡ failure err) × ((k : ℕ) × (suc k ≤ 3) × Wraps k err))
filter_exception_iff_example = filter_exception_iff (failure refused)
