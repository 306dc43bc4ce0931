-- ===== src/DependencyGate/Evaluation.antt =====
-- `evaluate` and `summary` in gate.mjs.
pub mod Laws
use platform_engineering_lab.Prelude.{
  ℕ, String, Bool, true, false, ◌||◌, ◌&&◌, List, [], ◌∷◌, ◌++◌, Option, none, some, Result, ok,
  throw, ◌==◌, filter, find, map, if◌then◌else◌,
}
use platform_engineering_lab.DependencyGate.Advisories.{Advisory, Audit, GateError, advisories}
use platform_engineering_lab.DependencyGate.Exceptions.{
  ExceptionEntry, ExceptionsFile, Problem, Services, absent, not_a_list, listed, check_exceptions,
}

pub data Status : Type 0 where
  excepted blocking no_fix : Status

pub record Row : Type 0 where
  pub advisory : Advisory
  pub status : Status
  -- the exception that the note quotes
  pub exception : Option ExceptionEntry

-- `accepted` is the field `ok`.
pub record Evaluation : Type 0 where
  pub rows : List Row
  pub blocking : List Row
  pub problems : List Problem
  pub accepted : Bool

abbrev pub is_blocking_severity : String → Bool
is_blocking_severity s = (s == "high") || (s == "critical")

abbrev pub is_text : String → Option String → Bool
is_text t none = false
is_text t (some s) = s == t

-- list.includes(service)
abbrev pub includes_service : Option String → List (Option String) → Bool
includes_service none ss = false
includes_service (some service) [] = false
includes_service (some service) (s ∷ ss) = is_text service s || includes_service (some service) ss

-- !e.services || e.services.includes(service), of an entry that is in force
abbrev pub covers_service : Services → Option String → Bool
covers_service absent service = true
covers_service not_a_list service = false
covers_service (listed ss) service = includes_service service ss

unfoldable pub covers : Option String → Advisory → ExceptionEntry → Bool
covers service a e =
    is_text a.id e.id && is_text a.pkg e.package_name && covers_service e.services service

abbrev pub status_of : Option ExceptionEntry → Bool → Status
status_of (some exc) fixable = excepted
status_of none true = blocking
status_of none false = no_fix

unfoldable pub row_for : List ExceptionEntry → Option String → Advisory → Row
row_for valid service a =
    let exc = find (covers service a) valid in
    record { advisory = a; status = status_of exc a.fixable; exception = exc }

abbrev pub is_blocking : Status → Bool
is_blocking excepted = false
is_blocking blocking = true
is_blocking no_fix = false

abbrev pub is_empty {ℓ} : {A : Type ℓ} → List A → Bool
is_empty [] = true
is_empty (x ∷ xs) = false

abbrev pub conclude : List Row → List Problem → Evaluation
conclude rows problems =
    let stopping = filter (λ (r : Row). is_blocking r.status) rows in
    record {
      rows = rows;
      blocking = stopping;
      problems = problems;
      accepted = is_empty stopping && is_empty problems;
    }

abbrev pub rate :
    List ExceptionEntry × List Problem
    → Option String
    → Result GateError (List Advisory)
    → Result GateError Evaluation
rate (valid, problems) service (throw e) = throw e
rate (valid, problems) service (ok found) = ok (
    conclude (map (row_for valid service) (filter (λ a. is_blocking_severity a.severity) found))
      problems)

-- The lines of the Markdown report.
pub data Line : Type 0 where
  heading : (service : Option String) → Line
  verdict : (accepted : Bool) (total : ℕ) (blocking_severity : List Row) → Line
  problem : Problem → Line
  blank table_head : Line
  table_row : Row → Line

abbrev pub table : List Row → List Line
table [] = []
table (r ∷ rs) = blank ∷ table_head ∷ map table_row (r ∷ rs)

unfoldable pub summary : Evaluation → Option String → ℕ → List Line
summary result service total =
    heading service
    ∷ verdict result.accepted total result.rows
    ∷ (map problem result.problems ++ table result.rows)

module _ (date_of : String → Option ℕ) where
  unfoldable pub evaluate : Audit → ExceptionsFile → Option String → ℕ → Result GateError Evaluation
  evaluate audit exceptions service now =
      rate (check_exceptions date_of now exceptions) service (advisories audit)
