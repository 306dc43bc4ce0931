-- ===== src/Gateway/Routing/Laws.antt =====
-- What a path is, and which paths a prefix takes.
use Prim.Native.String.{[], ◌∷◌}
use Prim.Native.String
use text.Mathlib.TextEquality.{Char-path}
use text.Mathlib.TextLemmas.{nil-append, cons-append}
use platform_engineering_lab.Prelude.{
  ◌≡◌, ◌↔◌, ◌⊎◌, inl, inr, refl, sym, ap, ◌∙◌, String, true, false, Char, code, eqb, ◌==◌, eq_iff,
  arith, Bool-cases, Option-cases,
}
use platform_engineering_lab.Js.Text.{starts_with, strip_prefix, strip_prefix_iff}
use platform_engineering_lab.Gateway.Routing.{path_of, is_under}

-- No question mark.
abbrev pub Plain : String → Type 0
Plain [] = Unit
Plain (c ∷ s) = (eqb (code c) b'?' ≡ false) × Plain s

abbrev mark_char : Char
mark_char = "?"

mark_first :
    (c : Char) (s : String) → eqb (code c) b'?' ≡ true → c ∷ s ≡ String.◌++◌ "" (String.◌++◌ "?" s)
mark_first c s mark =
    let same : c ≡ mark_char = Char-path c mark_char (ground arith) in
    rw (nil-append, same, cons-append mark_char [] s, nil-append) refl

-- A request's path is what stands before the first question mark of its URL, all of it if there is
-- none.
pub path_of-splits :
    (url : String)
    → Plain (path_of url)
      × ((path_of url ≡ url)
          ⊎ ((query : String) × (url ≡ String.◌++◌ (path_of url) (String.◌++◌ "?" query))))
unfolding path_of
path_of-splits [] = (tt, inl refl)
path_of-splits (c ∷ s) = elim (Bool-cases (eqb (code c) b'?')) [
  | inl mark ↦ rw mark (tt, inr (s, mark_first c s mark))
  | inr plain ↦ rw plain (
    (plain, (path_of-splits s).0),
    elim (path_of-splits s).1 [
      | inl whole ↦ inl (ap (λ t. c ∷ t) whole)
      | inr (query, split) ↦
          inr
            (query, ap (λ t. c ∷ t) split ∙ sym (cons-append c (path_of s) (String.◌++◌ "?" query)))
    ],
  )
]

starts_with_iff :
    (text prefix : String)
    → (starts_with text prefix ≡ true) ↔ ((rest : String) × (text ≡ String.◌++◌ prefix rest))
starts_with_iff text prefix = (
  λ h. elim (Option-cases (strip_prefix prefix text)) [
    | inl absent ↦ absurd (ground arith)
    | inr (rest, found) ↦ (rest, (strip_prefix_iff prefix text rest).0 found)
  ],
  λ (rest, e). rw ((strip_prefix_iff prefix text rest).1 e) refl,
)

-- A prefix takes a path exactly when the path is the prefix, or goes on with a slash behind it: a
-- longer first segment is another path.
pub is_under_iff :
    (path prefix : String)
    → (is_under path prefix ≡ true)
      ↔ ((path ≡ prefix) ⊎ ((rest : String) × (path ≡ String.◌++◌ (String.◌++◌ prefix "/") rest)))
unfolding is_under
is_under_iff path prefix = (
  λ h. elim (Bool-cases (path == prefix)) [
    | inl same ↦ inl ((eq_iff path prefix).0 same)
    | inr other ↦ inr ((starts_with_iff path (String.◌++◌ prefix "/")).0 (ground arith))
  ],
  λ w. elim w [
    | inl same ↦ rw ((eq_iff path prefix).1 same)
    | inr longer ↦ ground (arith, (starts_with_iff path (String.◌++◌ prefix "/")).1 longer)
  ],
)
