-- ===== src/Pipeline/Laws.antt =====
-- Which requests reach a handler, and what the others are answered.
use platform_engineering_lab.Prelude.{
  ℕ, ◌≡◌, ◌⊎◌, inl, inr, refl, String, Bool, true, false, Option, some, Result, ok, throw,
}
use platform_engineering_lab.Effects.{Act, lift}
use platform_engineering_lab.Auth.Http.{
  HttpException, Refusal, unauthorized_exception, forbidden_exception, authentication_unavailable,
}
use platform_engineering_lab.Auth.Verifier.{Principal, VerifyError}
use platform_engineering_lab.Auth.Guard.{Route, can_activate}
use platform_engineering_lab.Auth.Guard.Laws.{IsAuthorized, can_activate_iff, can_activate-generic}
use platform_engineering_lab.Database.Filter.{Exception, http, failure, filter_exception}
use platform_engineering_lab.Pipeline.{
  piped, Answer, replied, refused, for_principal, answered, filtered, behind, serve,
}

-- 401 with the challenge, 403, or 503.
abbrev pub IsTurnedAway : {A : Type 0} → Answer A → Type 0
IsTurnedAway answer =
    (answer ≡ refused unauthorized_exception true)
    ⊎ (answer ≡ refused forbidden_exception false)
    ⊎ (answer ≡ refused authentication_unavailable false)

-- A value that has passed a pipe.
pub piped-ok :
    {A W : Type 0} (r : Result HttpException A) (a : A) (w w' : W)
    → ◌≡◌ {A = Result Exception A × W} (lift (piped r) w) (ok a, w')
    → (r ≡ ok a) × (w' ≡ w)
piped-ok (ok b) a w w' h = (cc, cc)
piped-ok (throw e) a w w' h = absurd (cc)

module _ {W A : Type 0} (reject : String → W → W) (outage : W → W)
    (verify : String → Result VerifyError Principal) (route : Route) (authorization : Option String)
    (handler : Principal → Act Exception W (ℕ × A)) where
  filtered-throws :
      (p : Bool × Exception) (status : ℕ) (body : A) (w w' : W)
      → filtered reject outage p w ≡ (replied status body, w')
      → ⊥
  filtered-throws (true, http e) status body w w' h = cc
  filtered-throws (true, failure e) status body w w' h = cc
  filtered-throws (false, http e) status body w w' h = cc
  filtered-throws (false, failure e) status body w w' h = cc

  answered-replied :
      (p : Result Exception (ℕ × A) × W) (status : ℕ) (body : A) (w' : W)
      → answered reject outage p ≡ (replied status body, w')
      → p ≡ (ok (status, body), w')
  answered-replied (ok (s, a), w) status body w' h = cc
  answered-replied (throw x, w) status body w' h =
      absurd (filtered-throws (filter_exception x) status body w w' h)

  -- A request is answered by the handler only if it carries a token that verifies, of a principal
  -- with one of the route's roles: the handler has then run for that principal.
  pub serve-replied :
      route.is_public ≡ false
      → (status : ℕ) (body : A) (w w' : W)
      → serve reject outage verify route authorization handler w ≡ (replied status body, w')
      → (p : Principal) × IsAuthorized verify route authorization p
        × (handler p w ≡ (ok (status, body), w'))
  unfolding serve
  serve-replied private status body w w' h =
      entered (can_activate verify route authorization) refl h
    where
      entered :
          (r : Result Refusal (Option Principal))
          → can_activate verify route authorization ≡ r
          → behind reject outage verify r (for_principal handler) w ≡ (replied status body, w')
          → (p : Principal) × IsAuthorized verify route authorization p
            × (handler p w ≡ (ok (status, body), w'))
      entered (throw r) e h = cc
      entered (ok o) e h = elim ((can_activate_iff verify route authorization o).0 e) [
        | inl (public, none_set) ↦ absurd (cc (public, private))
        | inr (_, (p, same, authorized)) ↦
            (p, authorized, answered-replied (handler p w) status body w' (rw same at h))
      ]

  -- Any other request is turned away, and changes nothing but the count of rejections.
  pub serve-refused :
      route.is_public ≡ false
      → ((p : Principal) → IsAuthorized verify route authorization p → ⊥)
      → (w : W)
      → let (answer, w') = serve reject outage verify route authorization handler w in
        IsTurnedAway answer × ((reason : String) × (w' ≡ reject reason w))
  unfolding serve
  serve-refused private nobody w = stopped (can_activate verify route authorization) refl
    where
      stopped :
          (x : Result Refusal (Option Principal))
          → can_activate verify route authorization ≡ x
          → let (answer, w') = behind reject outage verify x (for_principal handler) w in
            IsTurnedAway answer × ((reason : String) × (w' ≡ reject reason w))
      stopped (throw r) e =
          (kind (can_activate-generic verify route authorization r e), (r.reason, refl))
        where
          kind :
              ((r.exception ≡ unauthorized_exception) × (r.challenge ≡ true))
                ⊎ ((r.exception ≡ forbidden_exception) × (r.challenge ≡ false))
                ⊎ ((r.exception ≡ authentication_unavailable) × (r.challenge ≡ false))
              → IsTurnedAway {A = A} (refused r.exception r.challenge)
          kind (inl (e, c)) = inl (cc (e, c))
          kind (inr (inl (e, c))) = inr (inl (cc (e, c)))
          kind (inr (inr (e, c))) = inr (inr (cc (e, c)))
      stopped (ok o) e = elim ((can_activate_iff verify route authorization o).0 e) [
        | inl (public, none_set) ↦ absurd (cc (public, private))
        | inr (_, (p, same, authorized)) ↦ absurd (nobody p authorized)
      ]

  -- A principal who is authorized gets what the handler comes to.
  pub serve-entered :
      (p : Principal)
      → route.is_public ≡ false
      → IsAuthorized verify route authorization p
      → (w : W)
      → serve reject outage verify route authorization handler w
        ≡ answered reject outage (handler p w)
  unfolding serve
  serve-entered p private authorized w =
      rw
        ((can_activate_iff verify route authorization (some p)).1
          (inr (private, (p, refl, authorized))))
        refl

  -- An HttpException of the handler is the answer.
  pub answered-thrown :
      (e : HttpException) (p : Result Exception (ℕ × A) × W)
      → p.0 ≡ throw (http e)
      → (answered reject outage p).0 ≡ refused e false
  unfolding filter_exception
  answered-thrown e (x, w) h = rw h refl
