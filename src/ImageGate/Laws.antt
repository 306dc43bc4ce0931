-- ===== src/ImageGate/Laws.antt =====
-- When the gate passes.
use platform_engineering_lab.Prelude.{
  ℕ, ◌+◌, ◌*◌, ◌≤◌, ◌≡◌, ◌↔◌, inl, inr, refl, sym, subst, ◌∙◌, String, true, List, [], ◌∷◌, ◌++◌,
  Option, none, some, Result, ok, throw, IsIn, Bool-cases, Option-cases, arith,
}
use platform_engineering_lab.Js.Lines.{split_lines}
use platform_engineering_lab.DependencyGate.Exceptions.{is_given, today, day}
use platform_engineering_lab.ImageGate.{
  Entry, Problem, Fault, parse, far_fault, list_fault, fault_of, check_entries, evaluate, exit_of,
  file_of, run_gate, gate,
}
use platform_engineering_lab.ImageGate.Parsing.{
  IsEntryLine, entry_behind, from_zero, parse_complete, parse_sound,
}

module _ (date_of : String → Option ℕ) (now : ℕ) where
  -- A date that cannot be read is no date too far out.
  abbrev pub IsNear : Option ℕ → Type 0
  IsNear none = Unit
  IsNear (some t) = t ≤ today now + 90 * day

  -- The entry has a reason and a date behind `exp:`, which is not more than 90 days out.
  pub record IsInOrder (e : Entry) : Type 0 where
    pub reason : is_given e.reason ≡ true
    pub date : String
    pub exp : e.exp ≡ some date
    pub near : IsNear (date_of date)

  far_fault-none : (t : Option ℕ) → far_fault now t ≡ none → IsNear t
  far_fault-none none h = tt
  far_fault-none (some t) h = ground arith

  IsNear-far_fault : (t : Option ℕ) → IsNear t → far_fault now t ≡ none
  IsNear-far_fault none h = refl
  IsNear-far_fault (some t) h = ground arith

  fault_of-none : (e : Entry) → fault_of date_of now e ≡ none → IsInOrder e
  unfolding fault_of
  fault_of-none e h = elim (Bool-cases (is_given e.reason)) [
    | inr missing ↦ absurd (ground (arith, missing, h))
    | inl given ↦ elim (Option-cases e.exp) [
      | inl undated ↦ absurd (ground (arith, given, undated, h))
      | inr (date, dated) ↦ record {
        reason = given;
        date = date;
        exp = dated;
        near = far_fault-none (date_of date) (ground (arith, given, dated, h));
      }
    ]
  ]

  IsInOrder-fault_of : (e : Entry) → IsInOrder e → fault_of date_of now e ≡ none
  unfolding fault_of
  IsInOrder-fault_of e o = rw (o.reason, o.exp, IsNear-far_fault (date_of o.date) o.near) refl

  list_fault-none :
      (e : Entry) (f : Option Fault) (ps : List Problem)
      → list_fault e f ps ≡ []
      → (f ≡ none) × (ps ≡ [])
  list_fault-none e none ps h = (refl, h)
  list_fault-none e (some f) ps h = absurd (cc)

  check_entries-none :
      (es : List Entry) (e : Entry) → check_entries date_of now es ≡ [] → IsIn e es → IsInOrder e
  unfolding check_entries
  check_entries-none [] e h w = absurd w
  check_entries-none (x ∷ es) e h w =
      let (fine, rest) =
        list_fault-none x (fault_of date_of now x) (check_entries date_of now es) h in
      elim w [
        | inl here ↦ subst IsInOrder here (fault_of-none x fine)
        | inr there ↦ check_entries-none es e rest there
      ]

  none-check_entries :
      (es : List Entry)
      → ((e : Entry) → IsIn e es → IsInOrder e)
      → check_entries date_of now es ≡ []
  unfolding check_entries
  none-check_entries [] hs = refl
  none-check_entries (x ∷ es) hs =
      rw (IsInOrder-fault_of x (hs x (inl refl))) (none-check_entries es (λ e w. hs e (inr w)))

  -- Every entry line of the file is in order, with the comment directly above it as its reason.
  abbrev pub IsCovered : String → Type 0
  IsCovered text =
      (before : List String) (raw : String) (after : List String)
      → split_lines text ≡ before ++ raw ∷ after
      → IsEntryLine raw
      → IsInOrder (entry_behind before raw)

  check-IsCovered : (text : String) → check_entries date_of now (parse text) ≡ [] → IsCovered text
  check-IsCovered text h before raw after split line =
      check_entries-none (parse text) (entry_behind before raw) h
        (parse_complete text before raw after split line)

  IsCovered-check : (text : String) → IsCovered text → check_entries date_of now (parse text) ≡ []
  IsCovered-check text covered = none-check_entries (parse text) (λ e w.
      let o = parse_sound text e w in
      subst IsInOrder (sym (o.same ∙ from_zero o.before o.raw))
        (covered o.before o.raw o.after o.split o.line))

  exit-none : (ps : List Problem) → exit_of ps ≡ 0 → ps ≡ []
  exit-none [] h = refl
  exit-none (p ∷ ps) h = absurd (cc)

  run_gate-IsCovered :
      (r : Result String String)
      → run_gate date_of now r ≡ 0
      → (text : String) × (r ≡ ok text) × IsCovered text
  unfolding evaluate
  run_gate-IsCovered (ok text) h =
      (text, refl, check-IsCovered text (exit-none (check_entries date_of now (parse text)) h))
  run_gate-IsCovered (throw message) h = absurd (cc)

  -- The gate exits with 0 exactly when the file it is given, or the one it defaults to, can be read and
  -- every line of it that is neither blank nor a comment has a comment that is not empty directly above
  -- it and a date behind `exp:`, which is no date or at most 90 days from today.
  pub gate-IsCovered_iff :
      (read : String → Result String String) (env : Option String) (beside : String)
      (args : List String)
      → (gate date_of read env beside now args ≡ 0)
        ↔ ((text : String) × (read (file_of args env beside) ≡ ok text) × IsCovered text)
  unfolding gate evaluate
  gate-IsCovered_iff read env beside args = (
    run_gate-IsCovered (read (file_of args env beside)),
    λ (text, e, covered). rw (e, IsCovered-check text covered) refl,
  )
