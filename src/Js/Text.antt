-- ===== src/Js/Text.antt =====
-- String.prototype.toLowerCase, startsWith and the `\s` class of regular expressions.
-- `to_lower_case` is exact on ASCII; the program applies it to UUIDs only.
use Prim.Native.Char.{char, IsScalar}
use Prim.Native.Nat.{compare, Ordering}
use Prim.Native.String.{[], ◌∷◌}
use mathlib.Core.Logic.{dite, ite}
use native.Mathlib.Decide.{dec_le}
use text.Mathlib.TextEquality.{Char-path}
use Prim.Native.String
use mathlib.Core.Option.{some-injective}
use text.Mathlib.TextLemmas.{
  nil-append, cons-append, nil≢cons, head-eq_of_cons-eq, tail-eq_of_cons-eq,
}
use platform_engineering_lab.Prelude.{
  Option, none, some, true, false, ◌||◌, eqb, ◌↔◌, Bool-cases, inl, inr, ◌∙◌, ℕ, ◌+◌, ◌<◌, ◌≡◌,
  refl, String, Char, code, Bool, ◌&&◌, arith, leb, if◌then◌else◌,
}

compare-lt : (a b : ℕ) → a < b → compare a b ≡ Ordering.lt
compare-lt a b h = ground arith

-- IsScalar, as a function of the first comparison alone.
pub IsScalar-of_lt : (n : ℕ) → n < 55296 → IsScalar n
IsScalar-of_lt n h = rw (compare-lt n 55296 h) tt

abbrev pub is_upper : ℕ → Bool
is_upper n = leb b'A' n && leb n b'Z'

abbrev pub lower_code : ℕ → ℕ
lower_code n = if is_upper n then n + 32 else n

unfoldable pub lower_char : Char → Char
lower_char c =
    dite (dec_le (code c) b'Z')
      (λ h.
        ite (dec_le b'A' (code c)) (char (code c + 32) (IsScalar-of_lt (code c + 32) (omega arith)))
          c)
      (λ _. c)

pub code-lower_char : (c : Char) → code (lower_char c) ≡ lower_code (code c)
unfolding lower_char
code-lower_char c = ground arith

unfoldable pub to_lower_case : String → String
unfolding lower_char
to_lower_case [] = []
to_lower_case (c ∷ s) = lower_char c ∷ to_lower_case s

pub lower_char_idem : (c : Char) → lower_char (lower_char c) ≡ lower_char c
lower_char_idem c =
    Char-path (lower_char (lower_char c)) (lower_char c)
      (ground (arith, code-lower_char (lower_char c), code-lower_char c))

-- Lower-casing twice is lower-casing once.
pub to_lower_case_idem : (s : String) → to_lower_case (to_lower_case s) ≡ to_lower_case s
unfolding to_lower_case
to_lower_case_idem [] = refl
to_lower_case_idem (c ∷ s) = cc (lower_char_idem c, to_lower_case_idem s)

lowered_letters : to_lower_case "aBZ-9" ≡ "abz-9"
unfolding to_lower_case dec_le
lowered_letters = refl

-- What is left of a text behind a prefix.
unfoldable pub strip_prefix : String → String → Option String
strip_prefix [] s = some s
strip_prefix (p ∷ ps) [] = none
strip_prefix (p ∷ ps) (c ∷ s) = if eqb (code p) (code c) then strip_prefix ps s else none

abbrev pub is_some {ℓ} : {A : Type ℓ} → Option A → Bool
is_some none = false
is_some (some a) = true

-- text.startsWith(prefix)
abbrev pub starts_with : String → String → Bool
starts_with text prefix = is_some (strip_prefix prefix text)

-- text.includes(part)
unfoldable pub contains : String → String → Bool
contains [] part = is_some (strip_prefix part [])
contains (c ∷ s) part = is_some (strip_prefix part (c ∷ s)) || contains s part

-- Whether a prefix is followed by exactly that rest.
pub strip_prefix_iff : (p s t : String) → (strip_prefix p s ≡ some t) ↔ (s ≡ String.◌++◌ p t)
unfolding strip_prefix
strip_prefix_iff [] s t = (λ h. rw nil-append (some-injective s t h), λ h. rw (h, nil-append))
strip_prefix_iff (p ∷ ps) [] t = (λ h. cc, λ h. absurd (nil≢cons (h ∙ cons-append p ps t)))
strip_prefix_iff (p ∷ ps) (c ∷ s) t = (
  λ h. elim (Bool-cases (eqb (code p) (code c))) [
    | inl e ↦
        rw (cons-append, Char-path p c (ground arith), (strip_prefix_iff ps s t).0 (rw e at h)) refl
    | inr e ↦ absurd (ground arith)
  ],
  λ h.
      let same = h ∙ cons-append p ps t in
      let c≡p = head-eq_of_cons-eq same in
      rw (c≡p) (ground (arith, (strip_prefix_iff ps s t).1 (tail-eq_of_cons-eq same))),
)
