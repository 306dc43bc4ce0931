-- ===== src/CommitGate/Grammar.antt =====
-- The expression CONVENTIONAL against the grammar of Conventional Commits.
use Prim.Native.String.{[], ◌∷◌}
use Prim.Native.String
use text.Mathlib.TextLemmas.{append_assoc, nil-append}
use platform_engineering_lab.Prelude.{
  ◌≡◌, ◌↔◌, inl, inr, refl, sym, ap, ◌∙◌, String, Bool, true, ◌||◌, List, Option, none, some, any,
  IsIn, Option-cases, arith,
}
use platform_engineering_lab.Js.Text.{strip_prefix, strip_prefix_iff}
use platform_engineering_lab.CommitGate.{
  types, passes, scope_of, is_body, is_marked, in_scope, is_scoped, is_conventional,
}
use platform_engineering_lab.CommitGate.Parts.{
  either, passes_iff, is_described_iff, mark, is_marked_iff, is_scope, scope_of_iff,
}

-- The scope in parentheses, where there is one.
abbrev pub parens : Option String → String
parens none = ""
parens (some w) = String.◌++◌ "(" (String.◌++◌ w ")")

abbrev pub IsScope : Option String → Type 0
IsScope none = Unit
IsScope (some w) = is_scope w ≡ true

in_parens :
    (w r : String)
    → String.◌++◌ "(" (String.◌++◌ w (String.◌++◌ ")" r)) ≡ String.◌++◌ (parens (some w)) r
in_parens w r =
    ap (λ u. String.◌++◌ "(" u) (sym (append_assoc w ")" r))
    ∙ sym (append_assoc "(" (String.◌++◌ w ")") r)

abbrev Scoped : String → Type 0
Scoped s =
    (scope : Option String) × (r : String) × IsScope scope
    × (s ≡ String.◌++◌ (parens scope) r)
    × (is_marked r ≡ true)

Scoped-sound : (s : String) → passes is_marked (in_scope (strip_prefix "(" s)) ≡ true → Scoped s
Scoped-sound s h = elim (Option-cases (strip_prefix "(" s)) [
  | inl missing ↦ absurd (ground (arith, missing, h))
  | inr (t, e) ↦ elim (Option-cases (scope_of t)) [
    | inl missing ↦ absurd (ground (arith, missing, e, h))
    | inr (r, f) ↦
        let (w, fine, g) = (scope_of_iff t r).0 f in
        (
          some w,
          r,
          fine,
          (strip_prefix_iff "(" s t).0 e ∙ ap (λ u. String.◌++◌ "(" u) g ∙ in_parens w r,
          ground (arith, e, f, h),
        )
  ]
]

scoped_complete :
    (scope : Option String) (s r : String)
    → IsScope scope
    → s ≡ String.◌++◌ (parens scope) r
    → is_marked r ≡ true
    → (passes is_marked (in_scope (strip_prefix "(" s)) || is_marked s) ≡ true
scoped_complete none s r fine e m =
    let plain : is_marked s ≡ true = ap is_marked (e ∙ nil-append r) ∙ m in ground (arith, plain)
scoped_complete (some w) s r fine e m =
    let inner = String.◌++◌ w (String.◌++◌ ")" r) in
    let opened = (strip_prefix_iff "(" s inner).1 (e ∙ sym (in_parens w r)) in
    let closed = (scope_of_iff inner r).1 (w, fine, refl) in rw (opened, closed, m) refl

Scoped-cases : (s : String) → is_scoped s ≡ true → Scoped s
unfolding is_scoped
Scoped-cases s h =
    elim (either (passes is_marked (in_scope (strip_prefix "(" s))) (is_marked s) h) [
      | inl inside ↦ Scoped-sound s inside
      | inr plain ↦ (none, s, tt, sym (nil-append s), plain)
    ]

-- The grammar: a type, a scope or none, an exclamation mark or none, a colon and a space, and a
-- description on one line that starts with no white space.
pub record IsConventional (s : String) : Type 0 where
  pub kind : String
  pub known : IsIn kind types
  pub scope : Option String
  pub scope_fits : IsScope scope
  pub breaking : Bool
  pub body : String
  pub body_fits : is_body body ≡ true
  pub split :
      s
      ≡ String.◌++◌ kind
          (String.◌++◌ (parens scope) (String.◌++◌ (mark breaking) (String.◌++◌ ": " body)))

any-IsIn :
    (p : String → Bool) (ts : List String)
    → any p ts ≡ true
    → (t : String) × IsIn t ts × (p t ≡ true)
any-IsIn p List.[] h = absurd (cc)
any-IsIn p (List.◌∷◌ t ts) h = elim (either (p t) (any p ts) h) [
  | inl here ↦ (t, inl refl, here)
  | inr there ↦ let (u, w, e) = any-IsIn p ts there in (u, inr w, e)
]

IsIn-any :
    (p : String → Bool) (ts : List String) (t : String) → IsIn t ts → p t ≡ true → any p ts ≡ true
IsIn-any p List.[] t w h = absurd w
IsIn-any p (List.◌∷◌ u ts) t (inl e) h = let here : p u ≡ true = ap p e ∙ h in ground (arith, here)
IsIn-any p (List.◌∷◌ u ts) t (inr w) h = let there = IsIn-any p ts t w h in ground (arith, there)

pub IsConventional-sound : (s : String) → is_conventional s ≡ true → IsConventional s
unfolding is_conventional is_scoped
IsConventional-sound s h =
    let (kind, known, e) = any-IsIn (λ t. passes is_scoped (strip_prefix t s)) types h in
    let (r, split, f) = (passes_iff is_scoped kind s).0 e in
    let (scope, q, fits, split₁, m) = Scoped-cases r f in
    let (breaking, u, split₂, d) = (is_marked_iff q).0 m in
    let (body, split₃, b) = (is_described_iff u).0 d in
    record {
      kind = kind;
      known = known;
      scope = scope;
      scope_fits = fits;
      breaking = breaking;
      body = body;
      body_fits = b;
      split =
          split
          ∙ ap (λ x. String.◌++◌ kind x)
              (split₁
                ∙ ap (λ x. String.◌++◌ (parens scope) x)
                    (split₂ ∙ ap (λ x. String.◌++◌ (mark breaking) x) split₃));
    }

pub IsConventional-complete : (s : String) → IsConventional s → is_conventional s ≡ true
unfolding is_conventional is_scoped
IsConventional-complete s i =
    let described = String.◌++◌ ": " i.body in
    let marked_part = String.◌++◌ (mark i.breaking) described in
    let scoped_part = String.◌++◌ (parens i.scope) marked_part in
    let d = (is_described_iff described).1 (i.body, refl, i.body_fits) in
    let m = (is_marked_iff marked_part).1 (i.breaking, described, refl, d) in
    let c = scoped_complete i.scope scoped_part marked_part i.scope_fits refl m in
    IsIn-any (λ t. passes is_scoped (strip_prefix t s)) types i.kind i.known
      ((passes_iff is_scoped i.kind s).1 (scoped_part, i.split, c))

-- The expression CONVENTIONAL matches exactly the subjects of the grammar.
pub is_conventional_iff : (s : String) → (is_conventional s ≡ true) ↔ IsConventional s
is_conventional_iff s = (IsConventional-sound s, IsConventional-complete s)
