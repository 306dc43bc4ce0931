-- ===== src/DependencyGate/Evaluation/Laws.antt =====
-- When the gate accepts a report.
use platform_engineering_lab.Prelude.{
  ℕ, ◌≡◌, ◌↔◌, ◌⊎◌, inl, inr, refl, sym, ap, ◌∙◌, String, Bool, true, false, ◌&&◌, List, [], ◌∷◌,
  Option, none, some, Result, ok, throw, All, IsIn, All-IsIn, Finds, find-Finds, find, filter, map,
  Bool-cases, arith,
}
use platform_engineering_lab.DependencyGate.Advisories.{Advisory, Audit, GateError, advisories}
use platform_engineering_lab.DependencyGate.Exceptions.{
  ExceptionEntry, ExceptionsFile, entries, other_json, Problem, check_entries, check_exceptions,
}
use platform_engineering_lab.DependencyGate.Exceptions.Laws.{
  IsInForce, IsInForce-fault_of, check_entries-valid, valid-check_entries, check_entries-problems,
  problems-check_entries,
}
use platform_engineering_lab.DependencyGate.Evaluation.{
  Row, Evaluation, is_blocking_severity, covers, status_of, row_for, is_blocking, is_empty,
  conclude, rate, evaluate,
}

module _ (service : Option String) where
  -- The advisory does not stop the gate: its severity is below high, it has no fix, or one of the
  -- exceptions covers it.
  abbrev pub IsClear : List ExceptionEntry → Advisory → Type 0
  IsClear valid a =
      (is_blocking_severity a.severity ≡ false)
      ⊎ (a.fixable ≡ false)
      ⊎ ((e : ExceptionEntry) × IsIn e valid × (covers service a e ≡ true))

  status_of-IsClear :
      (a : Advisory) (valid : List ExceptionEntry) (o : Option ExceptionEntry)
      → Finds (covers service a) valid o
      → is_blocking (status_of o a.fixable) ≡ false
      → IsClear valid a
  status_of-IsClear a valid none f h = inr (inl (ground arith))
  status_of-IsClear a valid (some e) (here, h) clear = inr (inr (e, here, h))

  clear-status_of :
      (a : Advisory) (valid : List ExceptionEntry) (o : Option ExceptionEntry)
      → Finds (covers service a) valid o
      → (a.fixable ≡ false) ⊎ ((e : ExceptionEntry) × IsIn e valid × (covers service a e ≡ true))
      → is_blocking (status_of o a.fixable) ≡ false
  clear-status_of a valid none f (inl unfixable) = rw unfixable refl
  clear-status_of a valid none f (inr (e, here, h)) =
      absurd (cc (All-IsIn (λ x. covers service a x ≡ false) valid e f here, h))
  clear-status_of a valid (some x) f w = refl

  abbrev stopping : List ExceptionEntry → List Advisory → List Row
  stopping valid found =
      filter (λ (r : Row). is_blocking r.status)
        (map (row_for valid service) (filter (λ a. is_blocking_severity a.severity) found))

  none_stopping :
      (valid : List ExceptionEntry) (found : List Advisory)
      → is_empty (stopping valid found) ≡ true
      → All (IsClear valid) found
  unfolding row_for
  none_stopping valid [] h = tt
  none_stopping valid (a ∷ found) h = elim (Bool-cases (is_blocking_severity a.severity)) [
    | inr low ↦ (inl low, none_stopping valid found (ground arith))
    | inl high ↦
        elim (Bool-cases (is_blocking (status_of (find (covers service a) valid) a.fixable))) [
          | inl stops ↦ absurd (ground arith)
          | inr clear ↦ (
            status_of-IsClear a valid (find (covers service a) valid)
                (find-Finds (covers service a) valid) clear,
            none_stopping valid found (ground arith),
          )
        ]
  ]

  clear_stopping :
      (valid : List ExceptionEntry) (found : List Advisory)
      → All (IsClear valid) found
      → is_empty (stopping valid found) ≡ true
  unfolding row_for
  clear_stopping valid [] h = refl
  clear_stopping valid (a ∷ found) (inl low, hs) =
      ground (arith, low, clear_stopping valid found hs)
  clear_stopping valid (a ∷ found) (inr w, hs) =
      let clear =
        clear-status_of a valid (find (covers service a) valid)
          (find-Finds (covers service a) valid) w in
      ground (arith, clear, clear_stopping valid found hs)

  move-IsClear :
      (es fs : List ExceptionEntry) (found : List Advisory)
      → ((e : ExceptionEntry) → IsIn e es → IsIn e fs)
      → All (IsClear es) found
      → All (IsClear fs) found
  move-IsClear es fs [] into hs = tt
  move-IsClear es fs (a ∷ found) into (inl low, hs) = (inl low, move-IsClear es fs found into hs)
  move-IsClear es fs (a ∷ found) into (inr (inl unfixable), hs) =
      (inr (inl unfixable), move-IsClear es fs found into hs)
  move-IsClear es fs (a ∷ found) into (inr (inr (e, here, h)), hs) =
      (inr (inr (e, into e here, h)), move-IsClear es fs found into hs)

abbrev accepted_of : Result GateError Evaluation → Bool
accepted_of (ok r) = r.accepted
accepted_of (throw e) = false

both_empty :
    (xs : List Row) (ps : List Problem)
    → (is_empty xs && is_empty ps) ≡ true
    → (is_empty xs ≡ true) × (ps ≡ [])
both_empty [] [] h = (refl, refl)
both_empty [] (p ∷ ps) h = absurd (cc)
both_empty (x ∷ xs) ps h = absurd (cc)

and_false : (b : Bool) → (b && false) ≡ false
and_false true = refl
and_false false = refl

module _ (date_of : String → Option ℕ) (service : Option String) (now : ℕ) where
  -- The report is one of npm, every exception is in force, and every advisory is clear by them.
  pub record IsAccepted (audit : Audit) (file : ExceptionsFile) : Type 0 where
    pub exceptions : List ExceptionEntry
    pub array : file ≡ entries exceptions
    pub in_force : All (IsInForce date_of now) exceptions
    pub found : List Advisory
    pub report : advisories audit ≡ ok found
    pub clear : All (IsClear service exceptions) found

  abbrev rated : List ExceptionEntry → List Advisory → Evaluation
  rated es found =
      let (valid, problems) = check_entries date_of now es in
      conclude (map (row_for valid service) (filter (λ a. is_blocking_severity a.severity) found))
        problems

  rate-accepted :
      (audit : Audit) (es : List ExceptionEntry) (found : Result GateError (List Advisory))
      (r : Evaluation)
      → advisories audit ≡ found
      → rate (check_entries date_of now es) service found ≡ ok r
      → r.accepted ≡ true
      → IsAccepted audit (entries es)
  rate-accepted audit es (throw e) r report h accepted = absurd (ground arith)
  rate-accepted audit es (ok found) r report h accepted =
      let valid = (check_entries date_of now es).0 in
      let (none_stops, none_wrong) =
        both_empty (stopping service valid found) (check_entries date_of now es).1
          (ap accepted_of h ∙ accepted) in
      record {
        exceptions = es;
        array = refl;
        in_force = check_entries-problems date_of now es none_wrong;
        found = found;
        report = report;
        clear =
            move-IsClear service valid es found (λ e w. (check_entries-valid date_of now es e w).0)
              (none_stopping service valid found none_stops);
      }

  no_array_fails :
      (found : Result GateError (List Advisory)) (r : Evaluation)
      → rate (check_exceptions date_of now other_json) service found ≡ ok r
      → r.accepted ≡ false
  unfolding check_exceptions
  no_array_fails (throw e) r h = absurd (cc)
  no_array_fails (ok found) r h =
      sym (ap accepted_of h) ∙ and_false (is_empty (stopping service [] found))

  accepted-IsAccepted :
      (audit : Audit) (file : ExceptionsFile) (r : Evaluation)
      → evaluate date_of audit file service now ≡ ok r
      → r.accepted ≡ true
      → IsAccepted audit file
  unfolding evaluate check_exceptions
  accepted-IsAccepted audit other_json r h accepted =
      absurd (cc (no_array_fails (advisories audit) r h, accepted))
  accepted-IsAccepted audit (entries es) r h accepted =
      rate-accepted audit es (advisories audit) r refl h accepted

  IsAccepted-accepted :
      (audit : Audit) (file : ExceptionsFile)
      → IsAccepted audit file
      → (r : Evaluation) × (evaluate date_of audit file service now ≡ ok r) × (r.accepted ≡ true)
  unfolding evaluate check_exceptions
  IsAccepted-accepted audit file i =
      let valid = (check_entries date_of now i.exceptions).0 in
      let clear = clear_stopping service valid i.found (
        move-IsClear service i.exceptions valid i.found
          (λ e w. valid-check_entries date_of now i.exceptions e w (
            IsInForce-fault_of date_of now e
              (All-IsIn (IsInForce date_of now) i.exceptions e i.in_force w)))
          i.clear) in
      let fine = problems-check_entries date_of now i.exceptions i.in_force in
      (rated i.exceptions i.found, rw (i.array, i.report) refl, rw (fine, clear) refl)

  -- The gate accepts a report exactly when it is a report of npm, the exceptions are an array of which
  -- every entry is in force, and every advisory of the report is below high, has no fix, or is covered
  -- by one of the exceptions.
  pub evaluate_iff :
      (audit : Audit) (file : ExceptionsFile)
      → ((r : Evaluation) × (evaluate date_of audit file service now ≡ ok r) × (r.accepted ≡ true))
        ↔ IsAccepted audit file
  evaluate_iff audit file = (
    λ (r, h, accepted). accepted-IsAccepted audit file r h accepted,
    IsAccepted-accepted audit file,
  )
