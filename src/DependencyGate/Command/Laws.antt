-- ===== src/DependencyGate/Command/Laws.antt =====
-- When the gate's command exits with 0.
use platform_engineering_lab.Prelude.{
  ℕ, ◌≡◌, ◌↔◌, refl, sym, ap, ◌∙◌, String, Bool, true, false, List, [], ◌∷◌, Option, Result, ok,
  throw, bind-ok, arith,
}
use platform_engineering_lab.DependencyGate.Advisories.{Audit, GateError}
use platform_engineering_lab.DependencyGate.Exceptions.{ExceptionsFile}
use platform_engineering_lab.DependencyGate.Evaluation.{Evaluation, evaluate, summary}
use platform_engineering_lab.DependencyGate.Evaluation.Laws.{IsAccepted, evaluate_iff}
use platform_engineering_lab.DependencyGate.Command.{
  Files, Environment, or_unreadable, total_of, report, exit_of, run_gate, main, or_one, gate,
}

readable : {A : Type 0} (r : Result String A) (a : A) → or_unreadable r ≡ ok a → r ≡ ok a
readable (ok b) a h = cc
readable (throw e) a h = absurd (cc)

exits_zero : (r : Result GateError ℕ) → or_one r ≡ 0 → r ≡ ok 0
exits_zero (ok n) h = ground arith
exits_zero (throw e) h = absurd (cc)

exit_zero : (b : Bool) → exit_of b ≡ 0 → b ≡ true
exit_zero true h = refl
exit_zero false h = absurd (cc)

module _ (date_of : String → Option ℕ) (files : Files) (env : Environment) (now : ℕ) where
  -- One path is given, both files can be read, and the gate accepts the report; and the summary, if
  -- one is asked for, has been written.
  pub record IsPassing (paths : List String) : Type 0 where
    pub path : String
    pub only : paths ≡ path ∷ []
    pub audit : Audit
    pub read_audit : files.audit path ≡ ok audit
    pub exceptions : ExceptionsFile
    pub read_exceptions : files.exceptions env.exceptions_path ≡ ok exceptions
    pub result : Evaluation
    pub evaluated : evaluate date_of audit exceptions env.service now ≡ ok result
    pub accepted : IsAccepted date_of env.service now audit exceptions
    pub reported :
        report files env.summary_path (summary result env.service (total_of audit.metadata)) ≡ ok tt

  run_gate-IsPassing :
      (path : String) → run_gate date_of files env now path ≡ ok 0 → IsPassing (path ∷ [])
  unfolding run_gate
  run_gate-IsPassing path h =
      let (audit, e₁, h₁) = bind-ok (or_unreadable (files.audit path)) _ h in
      let (exceptions, e₂, h₂) =
        bind-ok (or_unreadable (files.exceptions env.exceptions_path)) _ h₁ in
      let (result, e₃, h₃) = bind-ok (evaluate date_of audit exceptions env.service now) _ h₂ in
      let (done, e₄, h₄) =
        bind-ok
          (report files env.summary_path (summary result env.service (total_of audit.metadata))) _
          h₃ in
      let zero_exit : exit_of result.accepted ≡ 0 = cc in
      record {
        path = path;
        only = refl;
        audit = audit;
        read_audit = readable (files.audit path) audit e₁;
        exceptions = exceptions;
        read_exceptions = readable (files.exceptions env.exceptions_path) exceptions e₂;
        result = result;
        evaluated = e₃;
        accepted =
            (evaluate_iff date_of env.service now audit exceptions).0
              (result, e₃, exit_zero result.accepted zero_exit);
        reported = e₄;
      }

  gate-IsPassing : (paths : List String) → main date_of files env now paths ≡ ok 0 → IsPassing paths
  unfolding main
  gate-IsPassing [] h = absurd (cc)
  gate-IsPassing (path ∷ []) h = run_gate-IsPassing path h
  gate-IsPassing (path ∷ other ∷ paths) h = absurd (cc)

  IsPassing-gate : (paths : List String) → IsPassing paths → gate date_of files env now paths ≡ 0
  unfolding gate main run_gate
  IsPassing-gate paths i =
      let (r, e, accepted) =
        (evaluate_iff date_of env.service now i.audit i.exceptions).1 i.accepted in
      let same : i.result ≡ r =
        ap (λ x. elim x as (λ _. Evaluation) [ ok v ↦ v | throw _ ↦ r ]) (sym i.evaluated ∙ e) in
      let fine : i.result.accepted ≡ true = ap (λ v. v.accepted) same ∙ accepted in
      rw (i.only, i.read_audit, i.read_exceptions, i.evaluated, i.reported, fine) refl

  -- The command exits with 0 exactly when it has one path, both files can be read, every exception is
  -- in force, every fixable advisory of severity high or above is covered by one of them, and the
  -- summary can be written: whatever goes wrong fails the gate.
  pub gate_iff : (paths : List String) → (gate date_of files env now paths ≡ 0) ↔ IsPassing paths
  unfolding gate
  gate_iff paths = (
    λ h. gate-IsPassing paths (exits_zero (main date_of files env now paths) h),
    IsPassing-gate paths,
  )
