-- ===== src/DependencyGate/Exceptions.antt =====
-- `checkExceptions` in gate.mjs. Date.parse is a parameter: the milliseconds from the earliest date
-- that JavaScript has, 100000000 days before 1970, or none where the text is no date.
pub mod Laws
use Prim.Native.String.{[], ◌∷◌}
use platform_engineering_lab.Prelude.{
  ℕ, ◌+◌, ◌*◌, ◌/◌, String, Bool, true, false, ◌||◌, List, Option, none, some, ◌==◌, ltb, code,
  if◌then◌else◌,
}
use platform_engineering_lab.Js.Pattern.{is_space}

-- The field `services`: absent, no array, or an array, with `none` for what is no text in it.
pub data Services : Type 0 where
  absent not_a_list : Services
  listed : List (Option String) → Services

-- The fields but `services` are texts, where they are there.
pub record ExceptionEntry : Type 0 where
  pub id : Option String
  pub package_name : Option String
  pub reason : Option String
  pub added : Option String
  pub expires : Option String
  pub services : Services

-- The parsed file.
pub data ExceptionsFile : Type 0 where
  other_json : ExceptionsFile
  entries : List ExceptionEntry → ExceptionsFile

pub data Fault : Type 0 where
  fields_required no_dates too_long expired bad_services : Fault

-- A problem with the file, or with an entry, which its message names.
pub data Problem : Type 0 where
  no_array : Problem
  of_entry : ExceptionEntry → Fault → Problem

abbrev pub max_exception_days : ℕ
max_exception_days = 90

abbrev pub day : ℕ
day = 86_400_000

-- Truth of a text that may be missing.
abbrev pub is_given : Option String → Bool
is_given none = false
is_given (some s) = if s == "" then false else true

-- A text with more than white space.
abbrev pub has_ink : String → Bool
has_ink [] = false
has_ink (c ∷ s) = if is_space (code c) then has_ink s else true

-- e.reason?.trim()
abbrev pub is_given_trimmed : Option String → Bool
is_given_trimmed none = false
is_given_trimmed (some s) = has_ink s

abbrev pub all_given : List (Option String) → Bool
all_given List.[] = true
all_given (List.◌∷◌ s ss) = let rest = all_given ss in if is_given s then rest else false

unfoldable pub has_bad_services : Services → Bool
has_bad_services absent = false
has_bad_services not_a_list = true
has_bad_services (listed List.[]) = true
has_bad_services (listed (List.◌∷◌ s ss)) = if all_given (List.◌∷◌ s ss) then false else true

-- Date.UTC(…) of the day of `now`.
abbrev pub today : ℕ → ℕ
today now = (now / day) * day

abbrev pub check_dates : Option ℕ → Option ℕ → ℕ → Bool → Option Fault
check_dates none expires now bad = some no_dates
check_dates (some added) none now bad = some no_dates
check_dates (some added) (some expires) now bad =
    if ltb (added + max_exception_days * day) expires
    then some too_long
    else if ltb expires (today now)
    then some expired
    else if bad
    then some bad_services
    else none

-- The entry, or its problem, before what the rest comes to.
abbrev pub sort_in :
    ExceptionEntry
    → Option Fault
    → List ExceptionEntry × List Problem
    → List ExceptionEntry × List Problem
sort_in e none (valid, problems) = (List.◌∷◌ e valid, problems)
sort_in e (some f) (valid, problems) = (valid, List.◌∷◌ (of_entry e f) problems)

module _ (date_of : String → Option ℕ) where
  abbrev pub date : Option String → Option ℕ
  date none = none
  date (some s) = date_of s

  -- One round of the loop: what is wrong with an entry.
  unfoldable pub fault_of : ℕ → ExceptionEntry → Option Fault
  fault_of now e =
      if is_given e.id
      then if is_given e.package_name
        then if is_given_trimmed e.reason
          then check_dates (date e.added) (date e.expires) now (has_bad_services e.services)
          else some fields_required
        else some fields_required
      else some fields_required

  unfoldable pub check_entries : ℕ → List ExceptionEntry → List ExceptionEntry × List Problem
  check_entries now List.[] = (List.[], List.[])
  check_entries now (List.◌∷◌ e es) = sort_in e (fault_of now e) (check_entries now es)

  -- The exceptions that are in force, and the problems with the rest.
  unfoldable pub check_exceptions : ℕ → ExceptionsFile → List ExceptionEntry × List Problem
  check_exceptions now other_json = (List.[], List.◌∷◌ no_array List.[])
  check_exceptions now (entries es) = check_entries now es
