-- ===== src/Database/Filter.antt =====
-- DatabaseUnavailableFilter in common/database-unavailable.filter.ts.
use platform_engineering_lab.Prelude.{
  ℕ, zero, suc, ◌≤◌, ◌≡◌, ◌↔◌, inl, inr, refl, String, Bool, true, false, Option, if◌then◌else◌,
  arith, Bool-cases,
}
use platform_engineering_lab.Auth.Http.{HttpException}
use platform_engineering_lab.Database.Errors.{
  JsError, nil, error, wrapped, is_connection_code, is_connection_message, is_unavailable_from,
  is_database_unavailable,
}

-- What a handler throws.
pub data Exception : Type 0 where
  http : HttpException → Exception
  failure : JsError → Exception

abbrev pub database_down : HttpException
database_down = record { status = 503; message = "Service temporarily unavailable" }

-- Whether the outage is counted, and the exception that goes on to Nest's default handling.
unfoldable pub filter_exception : Exception → Bool × Exception
filter_exception (http e) = (false, http e)
filter_exception (failure err) =
    if is_database_unavailable err then (true, http database_down) else (false, failure err)

-- An error of the chain that `driverError` and `cause` make speaks of the connection, after so many
-- wrappers.
pub data Wraps : ℕ → JsError → Type 0 where
  by_code :
      {q : Bool} {c m k : Option String} {d e : JsError}
      → is_connection_code c ≡ true
      → Wraps zero (error q c m k d e)
  by_message :
      {q : Bool} {c m k : Option String} {d e : JsError}
      → is_connection_message m ≡ true
      → Wraps zero (error q c m k d e)
  behind :
      {n : ℕ} {q : Bool} {c m k : Option String} {d e : JsError}
      → Wraps n (wrapped d e)
      → Wraps (suc n) (error q c m k d e)

found-Wraps :
    (n : ℕ) (err : JsError) → is_unavailable_from n err ≡ true → (k : ℕ) × (suc k ≤ n) × Wraps k err
unfolding is_unavailable_from
found-Wraps zero err h = cc
found-Wraps (suc n) nil h = cc
found-Wraps (suc n) (error q c m k d e) h = elim (Bool-cases (is_connection_code c)) [
  | inl code ↦ (0, omega arith, by_code code)
  | inr other ↦ elim (Bool-cases (is_connection_message m)) [
    | inl message ↦ (0, omega arith, by_message message)
    | inr none_at ↦
        let (j, below, w) = found-Wraps n (wrapped d e) (ground arith) in
        (suc j, omega arith, behind w)
  ]
]

Wraps-found :
    (n : ℕ) {k : ℕ} {err : JsError} → Wraps k err → suc k ≤ n → is_unavailable_from n err ≡ true
unfolding is_unavailable_from
Wraps-found zero w h = absurd (omega arith)
Wraps-found (suc n) (by_code h) below = rw h
Wraps-found (suc n) (by_message h) below = ground arith
Wraps-found (suc n) (behind w) below = ground (arith, Wraps-found n w (omega arith))

-- An exception is answered as a database outage, and counted, exactly when it is no HttpException but
-- an error that speaks of the connection itself, or through one of the two errors wrapped in it.
pub filter_exception_iff :
    (x : Exception)
    → (filter_exception x ≡ (true, http database_down))
      ↔ ((err : JsError) × (x ≡ failure err) × ((k : ℕ) × (suc k ≤ 3) × Wraps k err))
unfolding filter_exception is_database_unavailable
filter_exception_iff (http e) = (λ h. absurd (cc), λ (err, same, w). absurd (cc))
filter_exception_iff (failure err) = (
  λ h. (err, refl, found-Wraps 3 err (ground arith)),
  λ (err', same, (k, below, w)).
      let found : is_unavailable_from 3 err' ≡ true = Wraps-found 3 w below in
      let this : is_unavailable_from 3 err ≡ true = ground (arith, same, found) in rw this refl,
)

-- Any other exception goes on as it is.
pub filter_exception-other :
    (x : Exception) → (filter_exception x).0 ≡ false → (filter_exception x).1 ≡ x
unfolding filter_exception
filter_exception-other (http e) h = refl
filter_exception-other (failure err) h = ground arith
