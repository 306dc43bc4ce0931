-- ===== src/Config/Values.antt =====
-- required, positiveInt, intBetween and url: one value of the environment.
use Prim.Native.String.{[], ◌∷◌}
use text.Mathlib.TextLemmas.{nil≢cons}
use platform_engineering_lab.Prelude.{
  ℕ, ◌≤◌, ◌≡◌, ◌↔◌, inl, inr, sym, String, Bool, true, false, ◌&&◌, Option, none, some, Result, ok,
  throw, ◌==◌, eq_iff, Char, leb, eqb, code, if◌then◌else◌, arith, Bool-cases, Option-cases,
}

-- What validateEnv throws.
pub data ConfigError : Type 0 where
  is_required : (name : String) → ConfigError
  not_between : (name : String) (max : ℕ) → ConfigError
  not_url : (name : String) → ConfigError

-- The environment: the text of a variable, if it is set.
abbrev pub Raw : Type 0
Raw = String → Option String

abbrev pub present : String → Option String → Result ConfigError String
present name none = throw (is_required name)
present name (some v) = if v == "" then throw (is_required name) else ok v

unfoldable pub required : Raw → String → Result ConfigError String
required raw name = present name (raw name)

abbrev pub max_safe_integer : ℕ
max_safe_integer = 9007199254740991

-- n >= 1 && n <= max, for a whole number
abbrev pub in_range : String → ℕ → Option ℕ → Result ConfigError ℕ
in_range name max none = throw (not_between name max)
in_range name max (some n) = if leb 1 n && leb n max then ok n else throw (not_between name max)

-- url.replace(/\/+$/, '')
unfoldable pub without_slashes : String → String
without_slashes [] = []
without_slashes (c ∷ s) =
    let rest = without_slashes s in if eqb (code c) b'/' && (rest == "") then [] else c ∷ rest

module _ (number_of : String → Option ℕ) where
  abbrev pub number_at : Option String → ℕ → Option ℕ
  number_at none fallback = some fallback
  number_at (some v) fallback = number_of v

  unfoldable pub positive_int : Raw → String → ℕ → ℕ → Result ConfigError ℕ
  positive_int raw name fallback max = in_range name max (number_at (raw name) fallback)

  -- A number is accepted exactly when the variable, or the fallback where it is not set, is a whole
  -- number from 1 to the maximum.
  pub positive_int_iff :
      (raw : Raw) (name : String) (fallback max n : ℕ)
      → (positive_int raw name fallback max ≡ ok n)
        ↔ ((1 ≤ n) × (n ≤ max) × (number_at (raw name) fallback ≡ some n))
  unfolding positive_int
  positive_int_iff raw name fallback max n = elim (Option-cases (number_at (raw name) fallback)) [
    | inl absent ↦ ground arith
    | inr (m, found) ↦ ground arith
  ]

module _ (is_url : String → Bool) where
  abbrev pub checked_url : String → Result ConfigError String → Result ConfigError String
  checked_url name (ok v) = if is_url v then ok (without_slashes v) else throw (not_url name)
  checked_url name (throw e) = throw e

  unfoldable pub url : Raw → String → Result ConfigError String
  url raw name = checked_url name (required raw name)

-- No slash at the end.
abbrev pub IsBare : String → Type 0
IsBare [] = Unit
IsBare (c ∷ []) = eqb (code c) b'/' ≡ false
IsBare (c ∷ s) = IsBare s

-- String(raw.NAME ?? fallback)
abbrev pub text_or : Option String → String → String
text_or none fallback = fallback
text_or (some v) fallback = v

IsBare-cons :
    (c : Char) (rest : String)
    → IsBare rest
    → IsBare (if eqb (code c) b'/' && (rest == "") then [] else c ∷ rest)
IsBare-cons c [] b = elim (Bool-cases (eqb (code c) b'/')) [
  | inl slash ↦ rw slash tt
  | inr other ↦ rw other other
]
IsBare-cons c (d ∷ t) b = elim (Bool-cases (eqb (code c) b'/' && (d ∷ t == ""))) [
  | inl empty ↦ absurd (nil≢cons (sym ((eq_iff (d ∷ t) "").0 (ground arith))))
  | inr other ↦ rw other b
]

bare : (s : String) → IsBare (without_slashes s)
unfolding without_slashes
bare [] = tt
bare (c ∷ s) = IsBare-cons c (without_slashes s) (bare s)

-- A base URL that is accepted is that of the variable, which is a URL, less the slashes at its end.
pub url-IsBare :
    (is_url : String → Bool) (raw : Raw) (name v : String)
    → url is_url raw name ≡ ok v
    → IsBare v
      × ((text : String) × (raw name ≡ some text)
          × (is_url text ≡ true)
          × (v ≡ without_slashes text))
unfolding url required
url-IsBare is_url raw name v h = elim (Option-cases (raw name)) [
  | inl absent ↦ absurd (ground arith)
  | inr (text, found) ↦
      let same : v ≡ without_slashes text = ground arith in
      (rw same (bare text), (text, found, ground arith, same))
]
