-- ===== src/CommitGate/Parts.antt =====
-- What the parts of the expression CONVENTIONAL match.
use Prim.Native.String.{[], ◌∷◌}
use Prim.Native.String
use text.Mathlib.TextLemmas.{nil-append, cons-append}
use platform_engineering_lab.Prelude.{
  ◌≡◌, ◌↔◌, ◌⊎◌, inl, inr, refl, sym, ap, ◌∙◌, String, Char, code, Bool, true, false, ◌&&◌, ◌||◌,
  none, some, Bool-cases, Option-cases, arith,
}
use platform_engineering_lab.Js.Text.{strip_prefix, strip_prefix_iff}
use platform_engineering_lab.CommitGate.{
  passes, is_scope_char, scope_end, scope_of, is_body, is_described, is_marked,
}

pub either : (a b : Bool) → (a || b) ≡ true → (a ≡ true) ⊎ (b ≡ true)
either true b h = inl refl
either false b h = inr h

-- A prefix is followed by something that passes.
pub passes_iff :
    (p : String → Bool) (t s : String)
    → (passes p (strip_prefix t s) ≡ true) ↔ ((r : String) × (s ≡ String.◌++◌ t r) × (p r ≡ true))
passes_iff p t s = (
  λ h. elim (Option-cases (strip_prefix t s)) [
    | inl missing ↦ absurd (ground (arith, missing, h))
    | inr (r, e) ↦ (r, (strip_prefix_iff t s r).0 e, ground (arith, e, h))
  ],
  λ (r, e, h). rw ((strip_prefix_iff t s r).1 e) h,
)

pub is_described_iff :
    (s : String)
    → (is_described s ≡ true) ↔ ((r : String) × (s ≡ String.◌++◌ ": " r) × (is_body r ≡ true))
unfolding is_described
is_described_iff s = passes_iff is_body ": " s

-- The exclamation mark of a breaking change.
abbrev pub mark : Bool → String
mark true = "!"
mark false = ""

marked :
    (s r : String) (breaking : Bool)
    → s ≡ String.◌++◌ (mark breaking) r
    → is_described r ≡ true
    → (passes is_described (strip_prefix "!" s) || is_described s) ≡ true
marked s r true e d = let here = (passes_iff is_described "!" s).1 (r, e, d) in ground (arith, here)
marked s r false e d =
    let plain : is_described s ≡ true = ap is_described (e ∙ nil-append r) ∙ d in
    ground (arith, plain)

pub is_marked_iff :
    (s : String)
    → (is_marked s ≡ true) ↔ (
        (breaking : Bool) × (r : String) × (s ≡ String.◌++◌ (mark breaking) r)
        × (is_described r ≡ true))
unfolding is_marked
is_marked_iff s = (
  λ h. elim (either (passes is_described (strip_prefix "!" s)) (is_described s) h) [
    | inl here ↦ let (r, e, d) = (passes_iff is_described "!" s).0 here in (true, r, e, d)
    | inr plain ↦ (false, s, sym (nil-append s), plain)
  ],
  λ (breaking, r, e, d). marked s r breaking e d,
)

abbrev pub all_scope : String → Bool
all_scope [] = true
all_scope (c ∷ s) = is_scope_char (code c) && all_scope s

-- [\w./-]+
abbrev pub is_scope : String → Bool
is_scope [] = false
is_scope (c ∷ s) = is_scope_char (code c) && all_scope s

scope_end_sound :
    (s r : String)
    → scope_end s ≡ some r
    → (w : String) × (all_scope w ≡ true) × (s ≡ String.◌++◌ w (String.◌++◌ ")" r))
unfolding scope_end
scope_end_sound [] r h = absurd (cc)
scope_end_sound (c ∷ s) r h = elim (Option-cases (strip_prefix ")" (c ∷ s))) [
  | inr (t, e) ↦
      let same : t ≡ r = ground (arith, e, h) in
      (
        [],
        refl,
        (strip_prefix_iff ")" (c ∷ s) t).0 e
            ∙ ap (λ u. String.◌++◌ ")" u) same
            ∙ sym (nil-append (String.◌++◌ ")" r)),
      )
  | inl missing ↦ elim (Bool-cases (is_scope_char (code c))) [
    | inl fine ↦
        let (w, all, e) = scope_end_sound s r (ground (arith, missing, fine, h)) in
        (
          c ∷ w,
          ground (arith, fine, all),
          ap (λ u. c ∷ u) e ∙ sym (cons-append c w (String.◌++◌ ")" r)),
        )
    | inr bad ↦ absurd (ground (arith, missing, bad, h))
  ]
]

closes : (s r : String) → strip_prefix ")" s ≡ some r → scope_end s ≡ some r
unfolding scope_end strip_prefix
closes [] r h = absurd (ground (arith, h))
closes (c ∷ s) r h = rw h refl

no_close : (c : Char) (s : String) → is_scope_char (code c) ≡ true → strip_prefix ")" (c ∷ s) ≡ none
unfolding strip_prefix
no_close c s h = ground (arith, h)

scope_end_complete :
    (w s r : String)
    → all_scope w ≡ true
    → s ≡ String.◌++◌ w (String.◌++◌ ")" r)
    → scope_end s ≡ some r
unfolding scope_end
scope_end_complete [] s r all e =
    closes s r ((strip_prefix_iff ")" s r).1 (e ∙ nil-append (String.◌++◌ ")" r)))
scope_end_complete (c ∷ w) s r all e =
    let tail = String.◌++◌ w (String.◌++◌ ")" r) in
    let fine : is_scope_char (code c) ≡ true = ground arith in
    let rest : all_scope w ≡ true = ground arith in
    rw (e ∙ cons-append c w (String.◌++◌ ")" r))
      (rw (no_close c tail fine, fine) (scope_end_complete w tail r rest refl))

scope_of_sound :
    (s r : String)
    → scope_of s ≡ some r
    → (w : String) × (is_scope w ≡ true) × (s ≡ String.◌++◌ w (String.◌++◌ ")" r))
unfolding scope_of
scope_of_sound [] r h = absurd (cc)
scope_of_sound (c ∷ s) r h = elim (Bool-cases (is_scope_char (code c))) [
  | inl fine ↦
      let (w, all, e) = scope_end_sound s r (ground (arith, fine, h)) in
      (
        c ∷ w,
        ground (arith, fine, all),
        ap (λ u. c ∷ u) e ∙ sym (cons-append c w (String.◌++◌ ")" r)),
      )
  | inr bad ↦ absurd (ground (arith, bad, h))
]

scope_of_complete :
    (w s r : String)
    → is_scope w ≡ true
    → s ≡ String.◌++◌ w (String.◌++◌ ")" r)
    → scope_of s ≡ some r
unfolding scope_of
scope_of_complete [] s r fine e = absurd (cc)
scope_of_complete (c ∷ w) s r fine e =
    let ok_char : is_scope_char (code c) ≡ true = ground arith in
    let rest : all_scope w ≡ true = ground arith in
    rw (e ∙ cons-append c w (String.◌++◌ ")" r))
      (rw ok_char (scope_end_complete w (String.◌++◌ w (String.◌++◌ ")" r)) r rest refl))

pub scope_of_iff :
    (s r : String)
    → (scope_of s ≡ some r)
      ↔ ((w : String) × (is_scope w ≡ true) × (s ≡ String.◌++◌ w (String.◌++◌ ")" r)))
scope_of_iff s r = (scope_of_sound s r, λ (w, fine, e). scope_of_complete w s r fine e)
