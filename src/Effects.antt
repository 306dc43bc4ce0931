-- ===== src/Effects.antt =====
-- Asynchronous methods that may throw, as functions of the state that they change.
use platform_engineering_lab.Prelude.{arith, Result, ok, throw, ◌≡◌, refl}

abbrev pub Act : Type 0 → Type 0 → Type 0 → Type 0
Act E S A = S → Result E A × S

module _ {E S : Type 0} where
  infixl 5 ◌>>=◌ ◌>>◌
  abbrev pub ◌>>=◌ : {A B : Type 0} → Act E S A → (A → Act E S B) → Act E S B
  ◌>>=◌ m f s = let (r, s') = m s in elim r [ ok a ↦ f a s' | throw e ↦ (throw e, s') ]

  abbrev pub ◌>>◌ : {A B : Type 0} → Act E S A → Act E S B → Act E S B
  ◌>>◌ m k = m >>= λ _. k

  abbrev pub pure : {A : Type 0} → A → Act E S A
  pure a s = (ok a, s)

  abbrev pub raise : {A : Type 0} → E → Act E S A
  raise e s = (throw e, s)

  abbrev pub lift : {A : Type 0} → Result E A → Act E S A
  lift r s = (r, s)

-- try { m } catch (err) { handler(err) }
abbrev pub catch : {E F S A : Type 0} → Act E S A → (E → Act F S A) → Act F S A
catch m handler s = let (r, s') = m s in elim r [ ok a ↦ (ok a, s') | throw e ↦ handler e s' ]

module _ {E S A B : Type 0} where
  bound :
      (p : Result E A × S) (f : A → Act E S B) {b : B} {s' : S}
      → (let (r, s₁) = p in
          elim r as (λ _. Result E B × S) [ ok a ↦ f a s₁ | throw e ↦ (throw e, s₁) ])
        ≡ (ok b, s')
      → (a : A) × (s₁ : S) × (p ≡ (ok a, s₁)) × (f a s₁ ≡ (ok b, s'))
  bound (ok a, s₁) f h = (a, s₁, refl, h)
  bound (throw e, s₁) f h = cc

  -- A sequence that returns is two calls that return.
  pub bind-eq-ok :
      (m : Act E S A) (f : A → Act E S B) (s : S) {b : B} {s' : S}
      → (m >>= f) s ≡ (ok b, s')
      → (a : A) × (s₁ : S) × (m s ≡ (ok a, s₁)) × (f a s₁ ≡ (ok b, s'))
  bind-eq-ok m f s h = bound (m s) f h

  -- What holds at a state, and is kept by two computations, is kept by their sequence.
  pub bind-keeps :
      (P : S → Type 0) (m : Act E S A) (f : A → Act E S B)
      → ((s : S) → P s → P (m s).1)
      → ((a : A) (s : S) → P s → P (f a s).1)
      → (s : S) → P s
      → P ((m >>= f) s).1
  bind-keeps P m f one two s p = after (m s) (one s p)
    where
      after :
          (r : Result E A × S)
          → P r.1
          → P (elim r.0 as (λ _. Result E B × S) [ ok a ↦ f a r.1 | throw e ↦ (throw e, r.1) ]).1
      after (ok a, s₁) q = two a s₁ q
      after (throw e, s₁) q = q

  -- An error ends a sequence.
  pub bind-eq-throw :
      (m : Act E S A) (f : A → Act E S B) (s : S) (e : E)
      → (m s).0 ≡ throw e
      → ((m >>= f) s).0 ≡ throw e
  bind-eq-throw m f s e h = ground arith
