-- ===== src/DependencyGate/Command.antt =====
-- `main` in gate.mjs and the call of it: the exit code of the gate.
pub mod Laws
use platform_engineering_lab.Prelude.{
  ℕ, String, Bool, true, false, List, [], ◌∷◌, Option, none, some, Result, ok, throw, if◌then◌else◌,
  ◌>>=◌,
}
use platform_engineering_lab.DependencyGate.Advisories.{Audit, GateError, unreadable}
use platform_engineering_lab.DependencyGate.Exceptions.{ExceptionsFile}
use platform_engineering_lab.DependencyGate.Evaluation.{Evaluation, Line, evaluate, summary}

-- JSON.parse(readFileSync(…)) of the two files, by their paths, and appendFileSync of the report.
pub record Files : Type 0 where
  pub audit : String → Result String Audit
  pub exceptions : String → Result String ExceptionsFile
  pub append : String → List Line → Result String (Unit {0})

-- DEP_EXCEPTIONS, or the file beside the script; SERVICE; GITHUB_STEP_SUMMARY.
pub record Environment : Type 0 where
  pub exceptions_path : String
  pub service : Option String
  pub summary_path : Option String

abbrev pub or_unreadable {ℓ} : {A : Type ℓ} → Result String A → Result GateError A
or_unreadable (ok a) = ok a
or_unreadable (throw m) = throw (unreadable m)

abbrev pub total_of : Option (Option ℕ) → ℕ
total_of none = 0
total_of (some none) = 0
total_of (some (some n)) = n

abbrev pub report : Files → Option String → List Line → Result GateError (Unit {0})
report files none lines = ok tt
report files (some path) lines = or_unreadable (files.append path lines)

abbrev pub exit_of : Bool → ℕ
exit_of true = 0
exit_of false = 1

abbrev pub or_one : Result GateError ℕ → ℕ
or_one (ok exit) = exit
or_one (throw e) = 1

module _ (date_of : String → Option ℕ) (files : Files) (env : Environment) (now : ℕ) where
  unfoldable pub run_gate : String → Result GateError ℕ
  run_gate path = do
    audit ← or_unreadable (files.audit path)
    exceptions ← or_unreadable (files.exceptions env.exceptions_path)
    result ← evaluate date_of audit exceptions env.service now
    done ← report files env.summary_path (summary result env.service (total_of audit.metadata))
    ok (exit_of result.accepted)

  unfoldable pub main : List String → Result GateError ℕ
  main [] = ok 1
  main (path ∷ []) = run_gate path
  main (path ∷ other ∷ paths) = ok 1

  -- The exit code, with the `catch` around main.
  unfoldable pub gate : List String → ℕ
  gate paths = or_one (main paths)
