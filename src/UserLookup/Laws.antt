-- ===== src/UserLookup/Laws.antt =====
-- What the lookups of order-service learn from user-service.

use text.Mathlib.TextLemmas.{append_assoc}
use platform_engineering_lab.Prelude.{
  ℕ, ◌≡◌, ◌↔◌, ◌⊎◌, inl, inr, refl, sym, ap, ◌∙◌, String, Bool, true, false, ◌||◌, Option, none,
  some, Result, ok, throw, ◌==◌, eq_iff, arith, Bool-cases,
}
use platform_engineering_lab.Js.Pattern.{match_prefix}
use platform_engineering_lab.Js.Text.{strip_prefix, strip_prefix_iff}
use platform_engineering_lab.Auth.Verifier.{Principal, VerifyError}
use platform_engineering_lab.Auth.Guard.{Route, bearer_token}
use platform_engineering_lab.Auth.Guard.Laws.{IsAuthorized}
use platform_engineering_lab.Auth.Ownership.{is_admin, is_owner}
use platform_engineering_lab.Database.Errors.{JsError}
use platform_engineering_lab.Database.Filter.{Exception, http, failure, filter_exception}
use platform_engineering_lab.Users.Service
use platform_engineering_lab.Users.Service.{User, user_missing}
use platform_engineering_lab.Users.Controller.{find_one_route}
use platform_engineering_lab.Users.App.{Deployment, State}
use platform_engineering_lab.Users.App.Laws.{shown, get_user-shown}
use platform_engineering_lab.Orders.Types.{World}
use platform_engineering_lab.Orders.Cache
use platform_engineering_lab.Orders.Cache.{Redis}
use platform_engineering_lab.Orders.Directory.{
  Fetched, response, step_of, again, fetch_from, attempts, DirectoryConfig, user_request, given,
  cache_key, is_truthy, exists,
}
use platform_engineering_lab.Orders.Directory.Laws.{
  fetch_from_iff, exists-no_cache, Answers, lookup_result,
}
use platform_engineering_lab.UserLookup.{
  status_of, base, Attempt, reached, user_service, Finds, Misses, Fails,
}

lookup_result_iff : (o : Option Bool) (b : Bool) → (lookup_result o ≡ ok b) ↔ (o ≡ some b)
lookup_result_iff none b = (λ h. absurd (cc), λ h. absurd (cc))
lookup_result_iff (some c) b = (λ h. cc, λ h. cc)

-- A header that holds a token is not empty.
pub given-carried :
    (verify : String → Result VerifyError Principal) (route : Route) (authorization : Option String)
    (p : Principal)
    → IsAuthorized verify route authorization p
    → given authorization ≡ authorization
unfolding bearer_token match_prefix
given-carried verify route none p served = refl
given-carried verify route (some s) p served = elim (Bool-cases (s == "")) [
  | inl blank ↦
      let empty : bearer_token (some s) ≡ none = rw ((eq_iff s "").0 blank) refl in
      absurd (cc (empty, served.carried))
  | inr ink ↦ rw ink refl
]

module _ {Body : Type 0} (d : Deployment Body) (config : DirectoryConfig) where
  pub path_asked :
      (id request_id : String) (authorization : Option String)
      → strip_prefix (base d config) (user_request config id request_id authorization).url ≡ some id
  path_asked id request_id authorization =
      (strip_prefix_iff (base d config) (user_request config id request_id authorization).url id).1
        (sym (append_assoc config.user_service_url "/v1/users/" id))

  -- One of the three.
  attempt-cases :
      (id : String) (a : Attempt d config)
      → Finds d config id a ⊎ Misses d config id a ⊎ Fails d config id a
  unfolding Service.find_one
  attempt-cases id (throw m) = inr (inr (inl (m, refl)))
  attempt-cases id (ok s) = found (d.table.find id s.db).0 refl
    where
      found :
          (r : Result JsError (Option User))
          → (d.table.find id s.db).0 ≡ r
          → Finds d config id (ok s) ⊎ Misses d config id (ok s) ⊎ Fails d config id (ok s)
      found (ok none) e = inr (inl (s, refl, rw e refl))
      found (ok (some u)) e = inl (s, refl, (u, rw e refl))
      found (throw err) e = inr (inr (inr (s, refl, (err, rw e refl))))

  module _ (authorization : Option String) (id : String) (p : Principal)
      (served : IsAuthorized d.verify find_one_route authorization p)
      (valid : d.parse_uuid_pipe id ≡ ok id) (may : (is_admin p || is_owner p id) ≡ true) where
    abbrev fetched : (Attempt d config) → Fetched
    fetched a = reached d config (some id) authorization a

    answer-at :
        (s : State d.table) (r : Result Exception User)
        → (Service.find_one d.table id s.db).0 ≡ r
        → fetched (ok s) ≡ response (status_of (shown d r))
    answer-at s r e =
        ap (λ x. response (status_of x))
          (get_user-shown d authorization id p id s served valid may ∙ ap (shown d) e)

    fetched-Finds : (a : Attempt d config) → Finds d config id a → fetched a ≡ response 200
    fetched-Finds a (s, at, (u, there)) = ap fetched at ∙ answer-at s (ok u) there

    fetched-Misses : (a : Attempt d config) → Misses d config id a → fetched a ≡ response 404
    unfolding filter_exception
    fetched-Misses a (s, at, missing) =
        ap fetched at ∙ answer-at s (throw (http user_missing)) missing

    failed-again :
        (err : JsError) → step_of (response (status_of (shown d (throw (failure err))))) ≡ again
    unfolding filter_exception step_of
    failed-again err = ground arith

    fetched-Fails : (a : Attempt d config) → Fails d config id a → step_of (fetched a) ≡ again
    unfolding step_of
    fetched-Fails a (inl (m, at)) = ap (λ x. step_of (fetched x)) at
    fetched-Fails a (inr (s, at, (err, broke))) =
        ap (λ x. step_of (fetched x)) at
        ∙ ap step_of (answer-at s (throw (failure err)) broke)
        ∙ failed-again err

    pub fetched-200 : (a : Attempt d config) → (fetched a ≡ response 200) ↔ Finds d config id a
    unfolding step_of
    fetched-200 a = (
      λ h. elim (attempt-cases id a) [
        | inl there ↦ there
        | inr (inl missing) ↦ absurd (cc (ap step_of h, ap step_of (fetched-Misses a missing)))
        | inr (inr fails) ↦ absurd (cc (ap step_of h, fetched-Fails a fails))
      ],
      fetched-Finds a,
    )

    pub fetched-404 : (a : Attempt d config) → (fetched a ≡ response 404) ↔ Misses d config id a
    unfolding step_of
    fetched-404 a = (
      λ h. elim (attempt-cases id a) [
        | inl there ↦ absurd (cc (ap step_of h, ap step_of (fetched-Finds a there)))
        | inr (inl missing) ↦ missing
        | inr (inr fails) ↦ absurd (cc (ap step_of h, fetched-Fails a fails))
      ],
      fetched-Misses a,
    )

    fetched-again : (a : Attempt d config) → (step_of (fetched a) ≡ again) ↔ Fails d config id a
    unfolding step_of
    fetched-again a = (
      λ h. elim (attempt-cases id a) [
        | inl there ↦ absurd (cc (h, ap step_of (fetched-Finds a there)))
        | inr (inl missing) ↦ absurd (cc (h, ap step_of (fetched-Misses a missing)))
        | inr (inr fails) ↦ fails
      ],
      fetched-Fails a,
    )

  module _ (redis : Redis) {Db Broker : Type 0} (w : World Db redis.State Broker)
      (request_id : String) (attempt : ℕ → Attempt d config) (authorization : Option String)
      (id : String) (p : Principal) (served : IsAuthorized d.verify find_one_route authorization p)
      (valid : d.parse_uuid_pipe id ≡ ok id) (may : (is_admin p || is_owner p id) ≡ true) where
    abbrev fetch : ℕ → Fetched
    fetch n = user_service d config attempt (user_request config id request_id authorization) n

    fetch-attempt : (n : ℕ) → fetch n ≡ fetched authorization id p served valid may (attempt n)
    fetch-attempt n =
        ap (λ path. reached d config path (given authorization) (attempt n))
          (path_asked id request_id authorization)
        ∙ ap (λ a. reached d config (some id) a (attempt n))
            (given-carried d.verify find_one_route authorization p served)

    Answers-iff :
        (status : ℕ) (Good : (Attempt d config) → Type 0)
        → ((a : Attempt d config)
            → (fetched authorization id p served valid may a ≡ response status) ↔ Good a)
        → Answers fetch status
          ↔ (Good (attempt 1) ⊎ (Fails d config id (attempt 1) × Good (attempt 2)))
    Answers-iff status Good iff = (
      λ h. elim h [
        | inl first ↦ inl ((iff (attempt 1)).0 (sym (fetch-attempt 1) ∙ first))
        | inr (retried, second) ↦ inr (
          (fetched-again authorization id p served valid may (attempt 1)).0
              (sym (ap step_of (fetch-attempt 1)) ∙ retried),
          (iff (attempt 2)).0 (sym (fetch-attempt 2) ∙ second),
        )
      ],
      λ h. elim h [
        | inl first ↦ inl (fetch-attempt 1 ∙ (iff (attempt 1)).1 first)
        | inr (fails, second) ↦ inr (
          ap step_of (fetch-attempt 1)
              ∙ (fetched-again authorization id p served valid may (attempt 1)).1 fails,
          fetch-attempt 2 ∙ (iff (attempt 2)).1 second,
        )
      ],
    )

    says_iff :
        (b : Bool)
        → is_truthy (Cache.get redis (cache_key id) w).0 ≡ false
        → ((exists redis config (user_service d config attempt) id request_id authorization w).0
            ≡ ok b)
          ↔ (fetch_from fetch attempts 1 ≡ some b)
    says_iff b absent =
        let same =
          exists-no_cache redis config (user_service d config attempt) id request_id authorization w
            absent in
        let (out, back) = lookup_result_iff (fetch_from fetch attempts 1) b in
        (λ h. out (sym same ∙ h), λ h. same ∙ back h)

    -- For a caller whom user-service lets see the user, and with nothing in the cache, a lookup says
    -- that the user exists exactly when user-service finds the user at the first attempt, or at the
    -- second where the first failed; and that there is no such user exactly when user-service misses it
    -- in that way. An attempt fails only if user-service is not reached or its database fails: it never
    -- refuses the caller.
    pub exists_iff :
        is_truthy (Cache.get redis (cache_key id) w).0 ≡ false
        → let answer =
            (exists redis config (user_service d config attempt) id request_id authorization w).0 in
          ((answer ≡ ok true) ↔ (
            Finds d config id (attempt 1)
            ⊎ (Fails d config id (attempt 1) × Finds d config id (attempt 2))))
          × ((answer ≡ ok false) ↔ (
              Misses d config id (attempt 1)
              ⊎ (Fails d config id (attempt 1) × Misses d config id (attempt 2))))
    exists_iff absent =
        let (at_200, at_404) = fetch_from_iff fetch in
        let found =
          Answers-iff 200 (Finds d config id) (fetched-200 authorization id p served valid may) in
        let missed =
          Answers-iff 404 (Misses d config id) (fetched-404 authorization id p served valid may) in
        let says_yes = says_iff true absent in
        let says_no = says_iff false absent in
        (
          (λ h. found.0 (at_200.0 (says_yes.0 h)), λ h. says_yes.1 (at_200.1 (found.1 h))),
          (λ h. missed.0 (at_404.0 (says_no.0 h)), λ h. says_no.1 (at_404.1 (missed.1 h))),
        )
