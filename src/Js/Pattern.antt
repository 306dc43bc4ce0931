-- ===== src/Js/Pattern.antt =====
-- The regular expressions of the sources: sequences of character classes, matched from the start.
-- They use the flag `i` without `u`, so letters fold as ASCII letters do.
use Prim.Native.String.{[], ◌∷◌}
use Prim.Native.String
use mathlib.Core.Option
use mathlib.Core.Option.{some-injective}
use text.Mathlib.TextLemmas.{nil-append, cons-append, cons≢nil}
use platform_engineering_lab.Prelude.{
  ℕ, ◌≡◌, refl, String, Char, code, Bool, true, false, ◌&&◌, ◌||◌, Option, none, some, List, arith,
  leb, eqb, if◌then◌else◌, Bool-cases, inl, inr,
}
use platform_engineering_lab.Js.Text.{lower_code, code-lower_char, to_lower_case}

pub data Class : Type 0 where
  hex dash blank : Class
  letter : ℕ → Class

abbrev pub accepts : Class → ℕ → Bool
accepts hex n = (leb b'0' n && leb n b'9') || (leb b'a' (lower_code n) && leb (lower_code n) b'f')
accepts dash n = eqb n b'-'
accepts blank n = eqb n b' '
accepts (letter l) n = eqb (lower_code n) l

-- What is left of the text behind the classes.
unfoldable pub match_prefix : List Class → String → Option String
match_prefix List.[] s = some s
match_prefix (List.◌∷◌ k ks) [] = none
match_prefix (List.◌∷◌ k ks) (c ∷ s) = if accepts k (code c) then match_prefix ks s else none

-- `\s`
abbrev pub is_space : ℕ → Bool
is_space n =
    (leb 9 n && leb n 13)
    || eqb n 0x20
    || eqb n 0xa0
    || eqb n 0x1680
    || (leb 0x2000 n && leb n 0x200a)
    || eqb n 0x2028
    || eqb n 0x2029
    || eqb n 0x202f
    || eqb n 0x205f
    || eqb n 0x3000
    || eqb n 0xfeff

-- `[^\s]+$`
unfoldable pub is_token : String → Bool
is_token [] = false
is_token (c ∷ []) = if is_space (code c) then false else true
is_token (c ∷ s) = if is_space (code c) then false else is_token s

pub accepts-lower_code : (k : Class) (n : ℕ) → accepts k (lower_code n) ≡ accepts k n
accepts-lower_code hex n = ground arith
accepts-lower_code dash n = ground arith
accepts-lower_code blank n = ground arith
accepts-lower_code (letter l) n = ground arith

-- A match does not depend on the case of the text.
pub match_prefix-to_lower_case :
    (ks : List Class) (s : String)
    → match_prefix ks (to_lower_case s) ≡ Option.map to_lower_case (match_prefix ks s)
unfolding match_prefix to_lower_case
match_prefix-to_lower_case List.[] s = refl
match_prefix-to_lower_case (List.◌∷◌ k ks) [] = refl
match_prefix-to_lower_case (List.◌∷◌ k ks) (c ∷ s) =
    rw (code-lower_char c, accepts-lower_code k (code c))
      (elim (Bool-cases (accepts k (code c))) [
        | inl e ↦ rw e (match_prefix-to_lower_case ks s)
        | inr e ↦ rw e
      ])

some_text-ne : (c : Char) (s : String) → ◌≡◌ {A = Option String} (some (c ∷ s)) (some []) → ⊥
some_text-ne c s h = cons≢nil (some-injective (c ∷ s) [] h)

-- What the classes match in a text, they match with anything behind it, and leave just that.
pub match_prefix-append :
    (ks : List Class) (p t : String)
    → match_prefix ks p ≡ some []
    → match_prefix ks (String.◌++◌ p t) ≡ some t
unfolding match_prefix
match_prefix-append List.[] [] t h = rw nil-append
match_prefix-append List.[] (c ∷ s) t h = absurd (some_text-ne c s h)
match_prefix-append (List.◌∷◌ k ks) [] t h = cc
match_prefix-append (List.◌∷◌ k ks) (c ∷ s) t h =
    rw cons-append (elim (Bool-cases (accepts k (code c))) [
      | inl e ↦ rw e (match_prefix-append ks s t (rw e at h))
      | inr e ↦ absurd (ground arith)
    ])

pub match_prefix-split :
    (ks : List Class) (s t : String)
    → match_prefix ks s ≡ some t
    → (p : String) × (s ≡ String.◌++◌ p t) × (match_prefix ks p ≡ some [])
unfolding match_prefix
match_prefix-split List.[] s t h = ([], rw nil-append (some-injective s t h), refl)
match_prefix-split (List.◌∷◌ k ks) [] t h = cc
match_prefix-split (List.◌∷◌ k ks) (c ∷ s) t h = elim (Bool-cases (accepts k (code c))) [
  | inl e ↦
      let (p, split, whole) = match_prefix-split ks s t (rw e at h) in
      (c ∷ p, rw (cons-append, ← split), rw e whole)
  | inr e ↦ absurd (ground arith)
]
