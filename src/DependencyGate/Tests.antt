-- ===== src/DependencyGate/Tests.antt =====
-- Concrete reports and exceptions.
use platform_engineering_lab.Prelude.{
  ℕ, ◌*◌, ◌≡◌, ◌↔◌, refl, String, true, false, [], ◌∷◌, Option, none, some, ok, ◌==◌, if◌then◌else◌,
}
use platform_engineering_lab.DependencyGate.Advisories.{
  advisory, package_name, Vulnerability, Audit, Advisory, advisories, last_segment, collect,
  add_all, add_via,
}
use platform_engineering_lab.DependencyGate.Exceptions.{
  ExceptionEntry, entries, absent, day, fault_of, check_entries, check_exceptions, has_bad_services,
}
use platform_engineering_lab.DependencyGate.Evaluation.{evaluate, row_for, covers}
use platform_engineering_lab.DependencyGate.Command.{Files, Environment, gate, main, run_gate}
use platform_engineering_lab.DependencyGate.Command.Laws.{IsPassing, gate_iff}

abbrev vulnerable : Vulnerability
vulnerable = record {
  via = some (
      package_name "lodash"
      ∷ advisory (some "https://github.com/advisories/GHSA-1") "100" "high"
          (some "Prototype pollution")
      ∷ []);
  unfixable = false;
}

abbrev audit : Audit
audit = record {
  error = none;
  message = none;
  vulnerabilities = some (("express", vulnerable) ∷ []);
  metadata = some (some 1);
}

abbrev found : Advisory
found = record {
  id = "GHSA-1";
  pkg = "express";
  severity = "high";
  title = "Prototype pollution";
  fixable = true;
}

scan : Unit {0}
unfolding advisories collect add_all add_via last_segment
scan = tt

one_found : advisories audit ≡ ok (found ∷ [])
unfolding scan
one_found = refl

-- Two dates, ten days apart.
abbrev dates : String → Option ℕ
dates s =
    if s == "2026-01-01"
    then some (1000 * day)
    else if s == "2026-01-11"
    then some (1010 * day)
    else none

abbrev accepted_risk : ExceptionEntry
accepted_risk = record {
  id = some "GHSA-1";
  package_name = some "express";
  reason = some "no untrusted input";
  added = some "2026-01-01";
  expires = some "2026-01-11";
  services = absent;
}

abbrev files : Files
files = record {
  audit = λ path. ok audit;
  exceptions =
      λ path. if path == "none.json" then ok (entries []) else ok (entries (accepted_risk ∷ []));
  append = λ path lines. ok tt;
}

abbrev env : String → Environment
env path = record { exceptions_path = path; service = some "order-service"; summary_path = none }

evaluation : Unit {0}
unfolding advisories collect add_all add_via last_segment gate main run_gate evaluate
    check_exceptions check_entries fault_of has_bad_services row_for covers
evaluation = tt

passes_with_exception :
    gate dates files (env "exceptions.json") (1005 * day) ("audit.json" ∷ []) ≡ 0
unfolding evaluation
passes_with_exception = refl

fails_when_expired : gate dates files (env "exceptions.json") (1011 * day) ("audit.json" ∷ []) ≡ 1
unfolding evaluation
fails_when_expired = refl

fails_without_exception : gate dates files (env "none.json") (1005 * day) ("audit.json" ∷ []) ≡ 1
unfolding evaluation
fails_without_exception = refl

gate_iff_example :
    (gate dates files (env "exceptions.json") (1005 * day) ("audit.json" ∷ []) ≡ 0)
    ↔ IsPassing dates files (env "exceptions.json") (1005 * day) ("audit.json" ∷ [])
gate_iff_example = gate_iff dates files (env "exceptions.json") (1005 * day) ("audit.json" ∷ [])
