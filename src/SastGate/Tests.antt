-- ===== src/SastGate/Tests.antt =====
-- A finding of high severity, and one that is suppressed.
use platform_engineering_lab.Prelude.{
  ℕ, ◌≡◌, ◌≢◌, ◌↔◌, refl, String, List, [], ◌∷◌, none, some, Result, ok, All, ◌==◌, if◌then◌else◌,
  ltb, eqb, not,
}
use platform_engineering_lab.SastGate.{
  Numbers, Finding, Run, Sarif, rule_of, is_blocking, blocking_in, blocking_runs, blocking_findings,
  count_failed, threshold_of, gate,
}
use platform_engineering_lab.SastGate.Laws.{Passes, gate-Passes_iff}

-- Tenths; 999 is NaN.
abbrev tenths : Numbers
tenths = record {
  Number = ℕ;
  of_text =
      λ s. if s == "7.0" then 70 else if s == "8.1" then 81 else if s == "3.5" then 35 else 999;
  nan = 999;
  is_finite = λ n. not (eqb n 999);
  less = ltb;
}

abbrev finding : ℕ → String → Finding
finding suppressions rule = record {
  suppressions = suppressions;
  rule_id = some rule;
  rule_ref = none;
  uri = none;
  start_line = none;
  message = none;
}

abbrev run_with : List Finding → Run
run_with results = record {
  driver = [];
  extensions =
      (record { id = some "js/sql-injection"; security_severity = some "8.1" }
        ∷ record { id = some "js/style"; security_severity = none }
        ∷ [])
      ∷ [];
  results = results;
}

abbrev read : String → Result String Sarif
read file =
    if file == "bad.sarif"
    then ok (some (run_with (finding 0 "js/sql-injection" ∷ []) ∷ []))
    else ok (some (run_with (finding 1 "js/sql-injection" ∷ finding 0 "js/style" ∷ []) ∷ []))

scan : Unit {0}
unfolding gate count_failed blocking_findings blocking_runs blocking_in is_blocking rule_of
scan = tt

high_severity_fails : gate tenths read none ("good.sarif" ∷ "bad.sarif" ∷ []) ≡ 1
unfolding scan
high_severity_fails = refl

suppressed_passes : gate tenths read none ("good.sarif" ∷ []) ≡ 0
unfolding scan
suppressed_passes = refl

gate-Passes_iff_example : (gate tenths read none ("good.sarif" ∷ []) ≡ 0) ↔ (
    (◌≢◌ {A = List String} ("good.sarif" ∷ []) [])
    × All (Passes tenths (threshold_of tenths none) read) ("good.sarif" ∷ []))
gate-Passes_iff_example = gate-Passes_iff tenths read none ("good.sarif" ∷ [])
