-- ===== src/ImageGate/Parsing.antt =====
-- The lines behind the entries of the file.
use platform_engineering_lab.Prelude.{
  ℕ, suc, ◌+◌, ◌≡◌, ◌⊎◌, inl, inr, refl, sym, ap, subst, ◌∙◌, String, false, List, [], ◌∷◌, ◌++◌,
  Option, none, some, IsIn, length, ◌==◌, if◌then◌else◌, Bool-cases, arith,
}
use platform_engineering_lab.Js.Text.{starts_with}
use platform_engineering_lab.Js.Lines.{split_lines, trim}
use platform_engineering_lab.ImageGate.{Entry, entry_of, behind_first, parse_from, parse}

-- A line that is neither blank nor a comment.
pub record IsEntryLine (raw : String) : Type 0 where
  pub not_blank : (trim raw == "") ≡ false
  pub no_comment : starts_with (trim raw) "#" ≡ false

-- The reason that a line gives the next one: its text, where it is a comment.
abbrev pub reason_in : String → Option String
reason_in raw =
    if trim raw == ""
    then none
    else if starts_with (trim raw) "#"
    then some (trim (behind_first (trim raw)))
    else none

-- The reason in the line directly above, behind the lines `before`.
abbrev pub above : Option String → List String → Option String
above reason [] = reason
above reason (raw ∷ raws) = above (reason_in raw) raws

-- The entry that stands behind the lines `before`.
abbrev pub entry_behind : List String → String → Entry
entry_behind before raw = entry_of (trim raw) (above none before) (length before)

-- One step of the loop, by the kind of the line.
parse_from-entry :
    (reason : Option String) (i : ℕ) (raw : String) (raws : List String)
    → IsEntryLine raw
    → parse_from reason i (raw ∷ raws) ≡ entry_of (trim raw) reason i ∷ parse_from none (i + 1) raws
unfolding parse_from
parse_from-entry reason i raw raws e = rw (e.not_blank, e.no_comment) refl

-- Any line leaves at least what the next ones come to, with the reason that it gives.
parse_from-cases :
    (reason : Option String) (i : ℕ) (raw : String) (raws : List String)
    → (IsEntryLine raw
        × (reason_in raw ≡ none)
        × (parse_from reason i (raw ∷ raws)
            ≡ entry_of (trim raw) reason i ∷ parse_from (reason_in raw) (i + 1) raws))
      ⊎ (parse_from reason i (raw ∷ raws) ≡ parse_from (reason_in raw) (i + 1) raws)
unfolding parse_from
parse_from-cases reason i raw raws = elim (Bool-cases (trim raw == "")) [
  | inl blank ↦ inr (rw blank refl)
  | inr ink ↦ elim (Bool-cases (starts_with (trim raw) "#")) [
    | inl comment ↦ inr (rw (ink, comment) refl)
    | inr plain ↦
        inl (
          record { not_blank = ink; no_comment = plain },
          rw (ink, plain) refl,
          rw (ink, plain) refl,
        )
  ]
]

later :
    (e : Entry) (reason : Option String) (i : ℕ) (raw : String) (raws : List String)
    → IsIn e (parse_from (reason_in raw) (i + 1) raws)
    → IsIn e (parse_from reason i (raw ∷ raws))
later e reason i raw raws w = elim (parse_from-cases reason i raw raws) [
  | inl (line, none_given, eq) ↦ subst (IsIn e) (sym eq) (inr w)
  | inr eq ↦ subst (IsIn e) (sym eq) w
]

parse_from_complete :
    (reason : Option String) (i : ℕ) (before : List String) (raw : String) (after : List String)
    → IsEntryLine raw
    → IsIn
        (entry_of (trim raw) (above reason before) (i + length before))
        (parse_from reason i (before ++ raw ∷ after))
parse_from_complete reason i [] raw after line =
    subst (λ es. IsIn (entry_of (trim raw) reason (i + 0)) es)
      (sym (parse_from-entry reason i raw after line))
      (inl (ap (entry_of (trim raw) reason) (omega arith)))
parse_from_complete reason i (x ∷ before) raw after line =
    let rest = parse_from_complete (reason_in x) (i + 1) before raw after line in
    let count : i + 1 + length before ≡ i + suc (length before) = omega arith in
    later _ reason i x (before ++ raw ∷ after) (
      subst
        (λ n.
          IsIn (entry_of (trim raw) (above (reason_in x) before) n)
            (parse_from (reason_in x) (i + 1) (before ++ raw ∷ after)))
        count rest)

-- Where an entry comes from.
pub record Origin (e : Entry) (reason : Option String) (i : ℕ) (raws : List String) : Type 0 where
  pub before : List String
  pub raw : String
  pub after : List String
  pub split : raws ≡ before ++ raw ∷ after
  pub line : IsEntryLine raw
  pub same : e ≡ entry_of (trim raw) (above reason before) (i + length before)

Origin-later :
    (e : Entry) (reason : Option String) (i : ℕ) (raw : String) (raws : List String)
    → Origin e (reason_in raw) (i + 1) raws
    → Origin e reason i (raw ∷ raws)
Origin-later e reason i raw raws o = record {
  before = raw ∷ o.before;
  raw = o.raw;
  after = o.after;
  split = ap (λ l. raw ∷ l) o.split;
  line = o.line;
  same = o.same ∙ ap (entry_of (trim o.raw) (above (reason_in raw) o.before)) (omega arith);
}

parse_from_sound :
    (reason : Option String) (i : ℕ) (raws : List String) (e : Entry)
    → IsIn e (parse_from reason i raws)
    → Origin e reason i raws
unfolding parse_from
parse_from_sound reason i [] e w = absurd w
parse_from_sound reason i (raw ∷ raws) e w = elim (parse_from-cases reason i raw raws) [
  | inl (line, none_given, eq) ↦ elim (subst (IsIn e) eq w) [
    | inl here ↦ record {
      before = [];
      raw = raw;
      after = raws;
      split = refl;
      line = line;
      same = sym here ∙ ap (entry_of (trim raw) reason) (omega arith);
    }
    | inr there ↦
        Origin-later e reason i raw raws (parse_from_sound (reason_in raw) (i + 1) raws e there)
  ]
  | inr eq ↦
      Origin-later e reason i raw raws
        (parse_from_sound (reason_in raw) (i + 1) raws e (subst (IsIn e) eq w))
]

pub from_zero :
    (before : List String) (raw : String)
    → entry_of (trim raw) (above none before) (0 + length before) ≡ entry_behind before raw
from_zero before raw = ap (entry_of (trim raw) (above none before)) (omega arith)

pub parse_complete :
    (text : String) (before : List String) (raw : String) (after : List String)
    → split_lines text ≡ before ++ raw ∷ after
    → IsEntryLine raw
    → IsIn (entry_behind before raw) (parse text)
unfolding parse
parse_complete text before raw after split line =
    subst (λ raws. IsIn (entry_behind before raw) (parse_from none 0 raws)) (sym split)
      (subst (λ e. IsIn e (parse_from none 0 (before ++ raw ∷ after))) (from_zero before raw)
        (parse_from_complete none 0 before raw after line))

pub parse_sound :
    (text : String) (e : Entry) → IsIn e (parse text) → Origin e none 0 (split_lines text)
unfolding parse
parse_sound text e w = parse_from_sound none 0 (split_lines text) e w
