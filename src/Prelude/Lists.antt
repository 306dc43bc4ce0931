-- ===== src/Prelude/Lists.antt =====
-- Lists measured by native numbers, quantified and searched by Boolean tests.
use Prim.Native.Nat.{ℕ, zero, suc, ◌+◌}
use mathlib.Core.Path.{◌≡◌, refl, subst}
use mathlib.Core.Bool.{Bool, true, false, ◌||◌}
use mathlib.Core.List.{List, [], ◌∷◌, ◌++◌}
use mathlib.Core.Option.{Option, none, some}
use mathlib.Core.Logic.{◌⊎◌, inl, inr}
use native.Mathlib.Omega.{arith}
use platform_engineering_lab.Prelude.Tests.{if◌then◌else◌, Bool-cases}

module _ {ℓ} {A : Type ℓ} where
  abbrev pub length : List A → ℕ
  length [] = 0
  length (x ∷ xs) = suc (length xs)

  abbrev pub replicate : ℕ → A → List A
  replicate zero a = []
  replicate (suc n) a = a ∷ replicate n a

  -- Array.prototype.some
  abbrev pub any : (A → Bool) → List A → Bool
  any p [] = false
  any p (x ∷ xs) = p x || any p xs

  -- Array.prototype.filter
  abbrev pub filter : (A → Bool) → List A → List A
  filter p [] = []
  filter p (x ∷ xs) = let rest = filter p xs in if p x then x ∷ rest else rest

  -- Array.prototype.find
  abbrev pub find : (A → Bool) → List A → Option A
  find p [] = none
  find p (x ∷ xs) = if p x then some x else find p xs

  pub length-append : (xs ys : List A) → length (xs ++ ys) ≡ length xs + length ys
  length-append [] ys = omega arith
  length-append (x ∷ xs) ys = omega (arith, length-append xs ys)

module _ {ℓ κ} {A : Type ℓ} (P : A → Type κ) where
  abbrev pub All : List A → Type κ
  All [] = Unit
  All (x ∷ xs) = P x × All xs

  pub All-append : (xs ys : List A) → All xs → All ys → All (xs ++ ys)
  All-append [] ys hx hy = hy
  All-append (x ∷ xs) ys (p, hx) hy = (p, All-append xs ys hx hy)

module _ {A : Type 0} where
  abbrev pub IsIn : A → List A → Type 0
  IsIn a [] = ⊥
  IsIn a (x ∷ xs) = (x ≡ a) ⊎ IsIn a xs

  abbrev pub Finds : (A → Bool) → List A → Option A → Type 0
  Finds p xs none = All (λ a. p a ≡ false) xs
  Finds p xs (some a) = IsIn a xs × (p a ≡ true)

  Finds-later :
      (p : A → Bool) (x : A) (xs : List A) (o : Option A)
      → p x ≡ false
      → Finds p xs o
      → Finds p (x ∷ xs) o
  Finds-later p x xs none fails f = (fails, f)
  Finds-later p x xs (some a) fails (here, h) = (inr here, h)

  -- `find` answers with an item that passes, or no item does.
  pub find-Finds : (p : A → Bool) (xs : List A) → Finds p xs (find p xs)
  find-Finds p [] = tt
  find-Finds p (x ∷ xs) = elim (Bool-cases (p x)) [
    | inl h ↦ rw h (inl refl, h)
    | inr h ↦ rw h (Finds-later p x xs (find p xs) h (find-Finds p xs))
  ]

  pub All-IsIn : (P : A → Type 0) (xs : List A) (a : A) → All P xs → IsIn a xs → P a
  All-IsIn P [] a hs w = absurd w
  All-IsIn P (x ∷ xs) a (h, hs) (inl e) = subst P e h
  All-IsIn P (x ∷ xs) a (h, hs) (inr w) = All-IsIn P xs a hs w
