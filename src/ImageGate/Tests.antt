-- ===== src/ImageGate/Tests.antt =====
-- Concrete ignore files.
use platform_engineering_lab.Prelude.{
  ℕ, ◌*◌, ◌≡◌, ◌↔◌, refl, String, [], ◌∷◌, Option, none, some, Result, ok, throw, ◌==◌,
  if◌then◌else◌,
}
use platform_engineering_lab.Js.Text.{strip_prefix}
use platform_engineering_lab.Js.Lines.{split_lines, trim_start, trim_end, first_word}
use platform_engineering_lab.DependencyGate.Exceptions.{day}
use platform_engineering_lab.ImageGate.{
  find_exp, parse_from, parse, fault_of, check_entries, evaluate, file_of, gate,
}
use platform_engineering_lab.ImageGate.Laws.{IsCovered, gate-IsCovered_iff}

-- 20 days and 100 days after the first of them, and no reading of a 99th month.
abbrev dates : String → Option ℕ
dates s =
    if s == "2026-01-21"
    then some (1020 * day)
    else if s == "2026-04-11"
    then some (1100 * day)
    else none

abbrev now : ℕ
now = 1000 * day

abbrev excused : String
excused = "# base image\n\n# not reachable: no shell\nCVE-2026-1 exp:2026-01-21\n"

abbrev far : String
far = "# not reachable\nCVE-2026-1 exp:2026-04-11"

abbrev apart : String
apart = "# not reachable\n\nCVE-2026-1 exp:2026-01-21"

abbrev no_date : String
no_date = "# not reachable\nCVE-2026-1 exp:2026-99-99"

abbrev read : String → Result String String
read file =
    if file == ".trivyignore"
    then ok excused
    else if file == "far"
    then ok far
    else if file == "apart"
    then ok apart
    else if file == "no_date"
    then ok no_date
    else throw "ENOENT"

running : Unit {0}
unfolding gate evaluate parse parse_from find_exp check_entries fault_of split_lines trim_start
    trim_end first_word strip_prefix
running = tt

passes_excused : gate dates read none ".trivyignore" now [] ≡ 0
unfolding running
passes_excused = refl

fails_far : gate dates read (some "far") ".trivyignore" now [] ≡ 1
unfolding running
fails_far = refl

fails_apart : gate dates read (some "far") ".trivyignore" now ("apart" ∷ []) ≡ 1
unfolding running
fails_apart = refl

fails_missing : gate dates read none ".trivyignore" now ("other" ∷ []) ≡ 1
unfolding running
fails_missing = refl

-- A date that does not exist is let through.
passes_no_date : gate dates read none ".trivyignore" now ("no_date" ∷ []) ≡ 0
unfolding running
passes_no_date = refl

gate-IsCovered_iff_example : (gate dates read none ".trivyignore" now [] ≡ 0) ↔ (
    (text : String) × (read (file_of [] none ".trivyignore") ≡ ok text) × IsCovered dates now text)
gate-IsCovered_iff_example = gate-IsCovered_iff dates now read none ".trivyignore" []
