-- ===== src/SastGate/Laws.antt =====
-- When the gate passes.
use platform_engineering_lab.Prelude.{
  ℕ, ◌+◌, ◌≡◌, ◌≢◌, ◌↔◌, ◌⊎◌, inl, inr, refl, ap, ◌∙◌, String, true, false, List, [], ◌∷◌, Option,
  none, some, Result, ok, throw, All, bind-ok, length, length-append, eqb, Bool-cases, arith,
}
use platform_engineering_lab.SastGate.{
  Numbers, Rule, Finding, Run, Sarif, score, is_blocking, blocking_in, rules_of, blocking_runs,
  blocking_findings, count_failed, exit_of, threshold_of, gate,
}

module _ (numbers : Numbers) (threshold : numbers.Number) where
  -- The finding is suppressed, its rule has no security severity that is a number, or one below the
  -- threshold.
  abbrev pub IsHarmless : List Rule → Finding → Type 0
  IsHarmless rules f =
      (f.suppressions ≢ 0)
      ⊎ (numbers.is_finite (score numbers rules f) ≡ false)
      ⊎ (numbers.less (score numbers rules f) threshold ≡ true)

  IsHarmless-of :
      (rules : List Rule) (f : Finding)
      → is_blocking numbers threshold rules f ≡ false
      → IsHarmless rules f
  unfolding is_blocking
  IsHarmless-of rules f h = elim (Bool-cases (eqb f.suppressions 0)) [
    | inr more ↦ inl (λ e. ground (arith, more, e))
    | inl none_there ↦ elim (Bool-cases (numbers.is_finite (score numbers rules f))) [
      | inr odd ↦ inr (inl odd)
      | inl finite ↦ inr (inr (ground arith))
    ]
  ]

  IsHarmless-not_blocking :
      (rules : List Rule) (f : Finding)
      → IsHarmless rules f
      → is_blocking numbers threshold rules f ≡ false
  unfolding is_blocking
  IsHarmless-not_blocking rules f (inl suppressed) = ground (arith, suppressed)
  IsHarmless-not_blocking rules f (inr (inl odd)) = ground (arith, odd)
  IsHarmless-not_blocking rules f (inr (inr low)) = ground (arith, low)

  none_in :
      (rules : List Rule) (fs : List Finding)
      → length (blocking_in numbers threshold rules fs) ≡ 0
      → All (IsHarmless rules) fs
  unfolding blocking_in
  none_in rules [] h = tt
  none_in rules (f ∷ fs) h = elim (Bool-cases (is_blocking numbers threshold rules f)) [
    | inl stops ↦ absurd (ground arith)
    | inr fine ↦ (IsHarmless-of rules f fine, none_in rules fs (ground arith))
  ]

  in_none :
      (rules : List Rule) (fs : List Finding)
      → All (IsHarmless rules) fs
      → length (blocking_in numbers threshold rules fs) ≡ 0
  unfolding blocking_in
  in_none rules [] hs = refl
  in_none rules (f ∷ fs) (h, hs) = rw (IsHarmless-not_blocking rules f h) (in_none rules fs hs)

  abbrev pub IsQuiet : Run → Type 0
  IsQuiet run = All (IsHarmless (rules_of numbers run)) run.results

  none_runs :
      (runs : List Run) → length (blocking_runs numbers threshold runs) ≡ 0 → All IsQuiet runs
  unfolding blocking_runs
  none_runs [] h = tt
  none_runs (run ∷ runs) h =
      let here = blocking_in numbers threshold (rules_of numbers run) run.results in
      let later = blocking_runs numbers threshold runs in
      let both = length-append here later in
      (
        none_in (rules_of numbers run) run.results (omega (arith, both, h)),
        none_runs runs (omega (arith, both, h)),
      )

  runs_none :
      (runs : List Run) → All IsQuiet runs → length (blocking_runs numbers threshold runs) ≡ 0
  unfolding blocking_runs
  runs_none [] hs = refl
  runs_none (run ∷ runs) (h, hs) =
      let here = blocking_in numbers threshold (rules_of numbers run) run.results in
      let later = blocking_runs numbers threshold runs in
      omega (
        arith,
        length-append here later,
        in_none (rules_of numbers run) run.results h,
        runs_none runs hs,
      )

  abbrev pub IsQuietFile : Sarif → Type 0
  IsQuietFile none = Unit
  IsQuietFile (some runs) = All IsQuiet runs

  none_findings :
      (sarif : Sarif) → length (blocking_findings numbers sarif threshold) ≡ 0 → IsQuietFile sarif
  unfolding blocking_findings
  none_findings none h = tt
  none_findings (some runs) h = none_runs runs h

  findings_none :
      (sarif : Sarif) → IsQuietFile sarif → length (blocking_findings numbers sarif threshold) ≡ 0
  unfolding blocking_findings
  findings_none none h = refl
  findings_none (some runs) h = runs_none runs h

  -- The file can be read, and is quiet.
  abbrev pub Passes : (String → Result String Sarif) → String → Type 0
  Passes read file = (sarif : Sarif) × (read file ≡ ok sarif) × IsQuietFile sarif

  count-Passes :
      (read : String → Result String Sarif) (files : List String)
      → count_failed numbers read threshold files ≡ ok 0
      → All (Passes read) files
  unfolding count_failed
  count-Passes read [] h = tt
  count-Passes read (file ∷ files) h =
      let (sarif, e, h₁) = bind-ok (read file) _ h in
      let (rest, e₁, h₂) = bind-ok (count_failed numbers read threshold files) _ h₁ in
      let total : length (blocking_findings numbers sarif threshold) + rest ≡ 0 = cc in
      (
        (sarif, e, none_findings sarif (omega (arith, total))),
        count-Passes read files (e₁ ∙ ap (λ n. ok n) (omega (arith, total))),
      )

  Passes-count :
      (read : String → Result String Sarif) (files : List String)
      → All (Passes read) files
      → count_failed numbers read threshold files ≡ ok 0
  unfolding count_failed
  Passes-count read [] hs = refl
  Passes-count read (file ∷ files) ((sarif, e, quiet), hs) =
      rw (e, Passes-count read files hs, findings_none sarif quiet) refl

exit-ok : (r : Result String ℕ) → exit_of r ≡ 0 → r ≡ ok 0
exit-ok (ok n) h = ap (λ m. ok m) (ground arith)
exit-ok (throw e) h = absurd (cc)

-- The gate exits with 0 exactly when at least one file is given and each of them can be read and has
-- only results that are suppressed, whose rule has no numeric security severity, or one below the
-- threshold.
pub gate-Passes_iff :
    (numbers : Numbers) (read : String → Result String Sarif) (severity : Option String)
    (files : List String)
    → (gate numbers read severity files ≡ 0)
      ↔ ((files ≢ []) × All (Passes numbers (threshold_of numbers severity) read) files)
unfolding gate
gate-Passes_iff numbers read severity [] =
    (λ h. absurd (cc), λ (some_file, hs). absurd (some_file refl))
gate-Passes_iff numbers read severity (file ∷ files) =
    let threshold = threshold_of numbers severity in
    (
      λ h. (
        λ e. cc,
        count-Passes numbers threshold read (file ∷ files)
            (exit-ok (count_failed numbers read threshold (file ∷ files)) h),
      ),
      λ (some_file, hs). rw (Passes-count numbers threshold read (file ∷ files) hs) refl,
    )
