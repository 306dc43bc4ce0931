-- ===== src/ImageGate.antt =====
-- security/image-scan/gate.mjs: the gate on the exceptions of the image scan. Date.parse is a parameter
-- as in DependencyGate.Exceptions: milliseconds from the earliest date, or none.
pub mod Parsing
pub mod Laws
mod Tests
use Prim.Native.String.{[], ◌∷◌}
use Prim.Native.String
use platform_engineering_lab.Prelude.{
  ℕ, zero, suc, ◌+◌, ◌*◌, String, Char, code, Bool, true, false, ◌&&◌, List, Option, none, some,
  Result, ok, throw, ◌==◌, eqb, ltb, if◌then◌else◌,
}
use platform_engineering_lab.Js.Text.{strip_prefix, starts_with}
use platform_engineering_lab.Js.Lines.{split_lines, trim, first_word, is_word, is_digit}
use platform_engineering_lab.DependencyGate.Exceptions.{is_given, today, day}

-- `exp` is expMatch[1].
pub record Entry : Type 0 where
  pub id : String
  pub reason : Option String
  pub exp : Option String
  pub line_no : ℕ

abbrev pub with_char : Char → Option (String × String) → Option (String × String)
with_char c none = none
with_char c (some (taken, rest)) = some (c ∷ taken, rest)

-- \d{n}: the digits, and what follows them.
abbrev pub take_digits : ℕ → String → Option (String × String)
take_digits zero s = some ([], s)
take_digits (suc n) [] = none
take_digits (suc n) (c ∷ s) =
    let rest = with_char c (take_digits n s) in if is_digit (code c) then rest else none

-- The word boundary behind the date.
abbrev pub ends_word : String → Bool
ends_word [] = true
ends_word (c ∷ s) = if is_word (code c) then false else true

abbrev pub dashed : String → Option (String × String) → Option (String × String)
dashed taken none = none
dashed taken (some (digits, rest)) = some (String.◌++◌ taken (String.◌++◌ "-" digits), rest)

-- -\d{2}, behind what has been taken
abbrev pub dash_and_two : Option (String × String) → Option (String × String)
dash_and_two none = none
dash_and_two (some (taken, [])) = none
dash_and_two (some (taken, c ∷ s)) =
    let rest = dashed taken (take_digits 2 s) in if eqb (code c) b'-' then rest else none

abbrev pub whole : Option (String × String) → Option String
whole none = none
whole (some (date, rest)) = if ends_word rest then some date else none

-- (\d{4}-\d{2}-\d{2})\b behind `exp:`
abbrev pub date_behind : Option String → Option String
date_behind none = none
date_behind (some s) = whole (dash_and_two (dash_and_two (take_digits 4 s)))

-- line.match(/\bexp:(\d{4}-\d{2}-\d{2})\b/)?.[1], where `inside` says that a word character stands
-- before.
unfoldable pub find_exp : Bool → String → Option String
find_exp inside [] = none
find_exp inside (c ∷ s) =
    let later = find_exp (is_word (code c)) s in
    let here = date_behind (strip_prefix "exp:" (c ∷ s)) in
    if inside then later else elim here [ some date ↦ some date | none ↦ later ]

-- line.slice(1)
abbrev pub behind_first : String → String
behind_first [] = []
behind_first (c ∷ s) = s

abbrev pub entry_of : String → Option String → ℕ → Entry
entry_of line reason i = record {
  id = first_word line;
  reason = reason;
  exp = find_exp false line;
  line_no = i + 1;
}

-- The loop of `parse`, with the reason so far and the index of the next line.
unfoldable pub parse_from : Option String → ℕ → List String → List Entry
parse_from reason i List.[] = List.[]
parse_from reason i (List.◌∷◌ raw raws) =
    let line = trim raw in
    let skip = parse_from none (i + 1) raws in
    let comment = parse_from (some (trim (behind_first line))) (i + 1) raws in
    if line == ""
    then skip
    else if starts_with line "#"
    then comment
    else List.◌∷◌ (entry_of line reason i) skip

unfoldable pub parse : String → List Entry
parse text = parse_from none 0 (split_lines text)

pub data Fault : Type 0 where
  needs_reason needs_exp too_far : Fault

pub record Problem : Type 0 where
  pub entry : Entry
  pub fault : Fault

-- A date that Date.parse does not read is NaN, which is not greater than the limit.
abbrev pub far_fault : ℕ → Option ℕ → Option Fault
far_fault now none = none
far_fault now (some t) = if ltb (today now + 90 * day) t then some too_far else none

abbrev pub list_fault : Entry → Option Fault → List Problem → List Problem
list_fault e none ps = ps
list_fault e (some f) ps = List.◌∷◌ (record { entry = e; fault = f }) ps

abbrev pub exit_of : List Problem → ℕ
exit_of List.[] = 0
exit_of (List.◌∷◌ p ps) = 1

-- args[0] ?? TRIVYIGNORE, or the file beside the script
abbrev pub file_of : List String → Option String → String → String
file_of (List.◌∷◌ file args) env beside = file
file_of List.[] (some file) beside = file
file_of List.[] none beside = beside

module _ (date_of : String → Option ℕ) where
  abbrev pub exp_fault : ℕ → Option String → Option Fault
  exp_fault now none = some needs_exp
  exp_fault now (some date) = far_fault now (date_of date)

  unfoldable pub fault_of : ℕ → Entry → Option Fault
  fault_of now e = if is_given e.reason then exp_fault now e.exp else some needs_reason

  unfoldable pub check_entries : ℕ → List Entry → List Problem
  check_entries now List.[] = List.[]
  check_entries now (List.◌∷◌ e es) = list_fault e (fault_of now e) (check_entries now es)

  unfoldable pub evaluate : String → ℕ → List Entry × List Problem
  evaluate text now = (parse text, check_entries now (parse text))

  abbrev pub run_gate : ℕ → Result String String → ℕ
  run_gate now (ok text) = exit_of (evaluate text now).1
  run_gate now (throw message) = 1

  -- The exit code, with the `catch` around main.
  unfoldable pub gate :
      (String → Result String String) → Option String → String → ℕ → List String → ℕ
  gate read env beside now args = run_gate now (read (file_of args env beside))
