-- ===== src/SastGate.antt =====
-- security/sast/gate.mjs: the gate on the findings of CodeQL, from SARIF files with the fields that
-- the code reads; a field that is not there is `none`.
pub mod Laws
mod Tests
use platform_engineering_lab.Prelude.{
  ℕ, ◌+◌, String, Bool, true, false, List, [], ◌∷◌, ◌++◌, Option, none, some, Result, ok, throw,
  ◌==◌, if◌then◌else◌, ◌>>=◌, length, eqb,
}

-- JavaScript's numbers as the gate uses them: Number(text), NaN, Number.isFinite and `<`.
pub record Numbers : Type 1 where
  pub Number : Type 0
  pub of_text : String → Number
  pub nan : Number
  pub is_finite : Number → Bool
  pub less : Number → Number → Bool

-- A rule with its properties['security-severity'].
pub record Rule : Type 0 where
  pub id : Option String
  pub security_severity : Option String

-- `suppressions` counts them; `rule_ref` is rule.id.
pub record Finding : Type 0 where
  pub suppressions : ℕ
  pub rule_id : Option String
  pub rule_ref : Option String
  pub uri : Option String
  pub start_line : Option ℕ
  pub message : Option String

-- The rules of tool.driver and of each of tool.extensions, and the results.
pub record Run : Type 0 where
  pub driver : List Rule
  pub extensions : List (List Rule)
  pub results : List Finding

abbrev pub Sarif : Type 0
Sarif = Option (List Run)

abbrev pub same_id : Option String → Option String → Bool
same_id none none = true
same_id none (some b) = false
same_id (some a) none = false
same_id (some a) (some b) = a == b

abbrev pub join : List (List Rule) → List Rule
join [] = []
join (rs ∷ rss) = rs ++ join rss

-- rules.get(id): the rule that was set last.
unfoldable pub rule_of : Option String → List Rule → Option Rule
rule_of id [] = none
rule_of id (r ∷ rs) =
    let later = rule_of id rs in
    elim later [ some found ↦ some found | none ↦ if same_id r.id id then some r else none ]

-- res.ruleId ?? res.rule?.id
abbrev pub id_of : Finding → Option String
id_of f = elim (f.rule_id) [ some id ↦ some id | none ↦ f.rule_ref ]

abbrev pub severity_text : Option Rule → Option String
severity_text none = none
severity_text (some r) = r.security_severity

abbrev pub exit_of : Result String ℕ → ℕ
exit_of (throw message) = 1
exit_of (ok failed) = if eqb failed 0 then 0 else 1

module _ (numbers : Numbers) where
  -- Number(…) of a text that may be missing
  abbrev pub number : Option String → numbers.Number
  number none = numbers.nan
  number (some s) = numbers.of_text s

  abbrev pub score : List Rule → Finding → numbers.Number
  score rules f = number (severity_text (rule_of (id_of f) rules))

  pub record Blocking : Type 0 where
    pub finding : Finding
    pub score : numbers.Number

  -- One round of the inner loop.
  unfoldable pub is_blocking : numbers.Number → List Rule → Finding → Bool
  is_blocking threshold rules f =
      if eqb f.suppressions 0
      then if numbers.is_finite (score rules f)
        then if numbers.less (score rules f) threshold then false else true
        else false
      else false

  unfoldable pub blocking_in : numbers.Number → List Rule → List Finding → List Blocking
  blocking_in threshold rules [] = []
  blocking_in threshold rules (f ∷ fs) =
      let rest = blocking_in threshold rules fs in
      if is_blocking threshold rules f
      then record { finding = f; score = score rules f } ∷ rest
      else rest

  abbrev pub rules_of : Run → List Rule
  rules_of run = join (run.driver ∷ run.extensions)

  unfoldable pub blocking_runs : numbers.Number → List Run → List Blocking
  blocking_runs threshold [] = []
  blocking_runs threshold (run ∷ runs) =
      blocking_in threshold (rules_of run) run.results ++ blocking_runs threshold runs

  unfoldable pub blocking_findings : Sarif → numbers.Number → List Blocking
  blocking_findings none threshold = []
  blocking_findings (some runs) threshold = blocking_runs threshold runs

  -- The loop over the files: how many findings block, or the error of a file that cannot be read.
  unfoldable pub count_failed :
      (String → Result String Sarif) → numbers.Number → List String → Result String ℕ
  count_failed read threshold [] = ok 0
  count_failed read threshold (file ∷ files) = do
    sarif ← read file
    rest ← count_failed read threshold files
    ok (length (blocking_findings sarif threshold) + rest)

  -- CODEQL_FAIL_SEVERITY ?? 7.0
  abbrev pub threshold_of : Option String → numbers.Number
  threshold_of none = numbers.of_text "7.0"
  threshold_of (some s) = numbers.of_text s

  -- The exit code, with the `catch` around main.
  unfoldable pub gate : (String → Result String Sarif) → Option String → List String → ℕ
  gate read severity [] = 1
  gate read severity (file ∷ files) =
      exit_of (count_failed read (threshold_of severity) (file ∷ files))
