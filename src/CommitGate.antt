-- ===== src/CommitGate.antt =====
-- security/commit-lint/gate.mjs: the gate on the subjects of commits. Its regular expressions are
-- recognizers: the alternatives of a group are tried in turn, and an optional part is left out as well.
pub mod Parts
pub mod Grammar
pub mod Laws
mod Tests
use Prim.Native.String.{[], ◌∷◌}
use Prim.Native.String
use platform_engineering_lab.Prelude.{
  ℕ, ◌+◌, String, Char, code, Bool, true, false, not, ◌&&◌, ◌||◌, List, Option, none, some, Result,
  ok, throw, ◌==◌, eqb, any, filter, if◌then◌else◌,
}
use platform_engineering_lab.Js.Text.{strip_prefix}
use platform_engineering_lab.Js.Pattern.{is_space}
use platform_engineering_lab.Js.Lines.{split_lines, trim, is_word}

abbrev pub types : List String
types = List.◌∷◌ "feat" (
    List.◌∷◌ "fix" (
      List.◌∷◌ "docs" (
        List.◌∷◌ "style" (
          List.◌∷◌ "refactor" (
            List.◌∷◌ "perf" (
              List.◌∷◌ "test" (
                List.◌∷◌ "build"
                  (List.◌∷◌ "ci" (List.◌∷◌ "chore" (List.◌∷◌ "revert" List.[]))))))))))

abbrev pub passes : (String → Bool) → Option String → Bool
passes p none = false
passes p (some s) = p s

-- [\w./-]
abbrev pub is_scope_char : ℕ → Bool
is_scope_char n = is_word n || eqb n b'.' || eqb n b'/' || eqb n b'-'

abbrev pub or_else : Option String → Option String → Option String
or_else none o = o
or_else (some s) o = some s

-- What follows `[\w./-]*\)`
unfoldable pub scope_end : String → Option String
scope_end [] = none
scope_end (c ∷ s) =
    let rest = scope_end s in
    or_else (strip_prefix ")" (c ∷ s)) (if is_scope_char (code c) then rest else none)

-- What follows `[\w./-]+\)`
unfoldable pub scope_of : String → Option String
scope_of [] = none
scope_of (c ∷ s) = if is_scope_char (code c) then scope_end s else none

-- The line terminators, which `.` does not match.
abbrev pub ends_line : ℕ → Bool
ends_line n = eqb n 10 || eqb n 13 || eqb n 0x2028 || eqb n 0x2029

-- .*$
unfoldable pub is_line : String → Bool
is_line [] = true
is_line (c ∷ s) = not (ends_line (code c)) && is_line s

-- \S.*$
abbrev pub is_body : String → Bool
is_body [] = false
is_body (c ∷ s) = not (is_space (code c)) && is_line s

-- : \S.*$
unfoldable pub is_described : String → Bool
is_described s = passes is_body (strip_prefix ": " s)

-- !?: \S.*$
unfoldable pub is_marked : String → Bool
is_marked s = passes is_described (strip_prefix "!" s) || is_described s

abbrev pub in_scope : Option String → Option String
in_scope none = none
in_scope (some s) = scope_of s

-- (\([\w./-]+\))?!?: \S.*$
unfoldable pub is_scoped : String → Bool
is_scoped s = passes is_marked (in_scope (strip_prefix "(" s)) || is_marked s

-- CONVENTIONAL.test
unfoldable pub is_conventional : String → Bool
is_conventional s = any (λ t. passes is_scoped (strip_prefix t s)) types

-- .*" from the start
unfoldable pub has_quote : String → Bool
has_quote [] = false
has_quote (c ∷ s) =
    let rest = has_quote s in
    if eqb (code c) b'"' then true else if ends_line (code c) then false else rest

-- .+"
abbrev pub is_quoted : String → Bool
is_quoted [] = false
is_quoted (c ∷ s) = if ends_line (code c) then false else has_quote s

abbrev pub always : String → Bool
always s = true

-- EXEMPT.test
unfoldable pub is_exempt : String → Bool
is_exempt s =
    passes is_quoted (strip_prefix "Revert \"" s)
    || passes always (strip_prefix "Merge pull request " s)
    || passes always (strip_prefix "Merge branch " s)

abbrev pub trimmed : List String → List String
trimmed List.[] = List.[]
trimmed (List.◌∷◌ s ss) = List.◌∷◌ (trim s) (trimmed ss)

abbrev pub is_bad : String → Bool
is_bad s = not (is_exempt s) && not (is_conventional s)

-- The subjects alone: the reason is the same for each.
unfoldable pub invalid_subjects : List String → List String
invalid_subjects subjects = filter is_bad (filter (λ s. not (s == "")) (trimmed subjects))

abbrev pub exit_of : List String → ℕ
exit_of List.[] = 0
exit_of (List.◌∷◌ s ss) = 1

unfoldable pub main : String → ℕ
main stdin = exit_of (invalid_subjects (split_lines stdin))

abbrev pub or_one : Result String String → ℕ
or_one (ok stdin) = main stdin
or_one (throw message) = 1

-- The exit code, from what reading the standard input comes to.
unfoldable pub gate : Result String String → ℕ
gate input = or_one input
