-- ===== src/CommitGate/Laws.antt =====
-- When the gate passes.

use platform_engineering_lab.Prelude.{
  ◌≡◌, ◌↔◌, ◌⊎◌, inl, inr, refl, String, true, false, not, List, Result, ok, throw, ◌==◌, eq_iff,
  filter, All, Bool-cases, arith,
}
use platform_engineering_lab.Js.Lines.{split_lines, trim}
use platform_engineering_lab.CommitGate.{
  is_exempt, is_bad, trimmed, invalid_subjects, exit_of, main, or_one, gate,
}
use platform_engineering_lab.CommitGate.Grammar.{
  IsConventional, IsConventional-sound, IsConventional-complete,
}

-- The line, without the white space around it, is empty, exempt or conventional.
abbrev pub Conforms : String → Type 0
Conforms raw = (trim raw ≡ "") ⊎ (is_exempt (trim raw) ≡ true) ⊎ IsConventional (trim raw)

abbrev kept : List String → List String
kept raws = filter is_bad (filter (λ s. not (s == "")) (trimmed raws))

good_line : (s : String) → is_bad s ≡ false → (is_exempt s ≡ true) ⊎ IsConventional s
good_line s h = elim (Bool-cases (is_exempt s)) [
  | inl e ↦ inl e
  | inr e ↦ inr (IsConventional-sound s (ground (arith, e, h)))
]

good_lines : (raws : List String) → kept raws ≡ List.[] → All Conforms raws
good_lines List.[] h = tt
good_lines (List.◌∷◌ raw raws) h = elim (Bool-cases (trim raw == "")) [
  | inl blank ↦ (inl ((eq_iff (trim raw) "").0 blank), good_lines raws (ground (arith, blank, h)))
  | inr ink ↦ elim (Bool-cases (is_bad (trim raw))) [
    | inl bad ↦ absurd (ground (arith, ink, bad, h))
    | inr good ↦ (inr (good_line (trim raw) good), good_lines raws (ground (arith, ink, good, h)))
  ]
]

lines_good : (raws : List String) → All Conforms raws → kept raws ≡ List.[]
lines_good List.[] hs = refl
lines_good (List.◌∷◌ raw raws) (inl blank, hs) =
    let rest = lines_good raws hs in rw ((eq_iff (trim raw) "").1 blank) rest
lines_good (List.◌∷◌ raw raws) (inr (inl exempt), hs) =
    let rest = lines_good raws hs in ground (arith, exempt, rest)
lines_good (List.◌∷◌ raw raws) (inr (inr fits), hs) =
    let rest = lines_good raws hs in
    let fine = IsConventional-complete (trim raw) fits in ground (arith, fine, rest)

exit-none : (ss : List String) → exit_of ss ≡ 0 → ss ≡ List.[]
exit-none List.[] h = refl
exit-none (List.◌∷◌ s ss) h = absurd (cc)

input_passes :
    (input : Result String String)
    → or_one input ≡ 0
    → (text : String) × (input ≡ ok text) × All Conforms (split_lines text)
unfolding main invalid_subjects
input_passes (ok text) h =
    (text, refl, good_lines (split_lines text) (exit-none (invalid_subjects (split_lines text)) h))
input_passes (throw message) h = absurd (cc)

-- The gate exits with 0 exactly when its input can be read and each line of it, without the white space
-- around it, is empty, exempt or of the grammar of Conventional Commits.
pub gate-Conforms_iff :
    (input : Result String String)
    → (gate input ≡ 0) ↔ ((text : String) × (input ≡ ok text) × All Conforms (split_lines text))
unfolding gate main invalid_subjects
gate-Conforms_iff input =
    (input_passes input, λ (text, e, hs). rw (e, lines_good (split_lines text) hs) refl)
