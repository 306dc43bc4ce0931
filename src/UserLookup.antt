-- ===== src/UserLookup.antt =====
-- The lookups of order-service, answered by user-service: users/user-directory.service.ts asks the
-- route GET /v1/users/:id with the caller's own token. user-service may be in another state at each
-- attempt, and an attempt may not reach it.
pub mod Laws
pub mod Orders
pub mod Refinement
mod Tests
use Prim.Native.String
use text.Mathlib.TextLemmas.{append_assoc}
use platform_engineering_lab.Prelude.{
  ℕ, ◌≡◌, ◌↔◌, ◌⊎◌, inl, inr, refl, sym, ap, ◌∙◌, String, Bool, true, false, ◌||◌, Option, none,
  some, Result, ok, throw, ◌==◌, eq_iff, arith, Bool-cases, Option-cases, Result-cases,
}
use platform_engineering_lab.Js.Pattern.{match_prefix}
use platform_engineering_lab.Js.Text.{strip_prefix, strip_prefix_iff}
use platform_engineering_lab.Auth.Verifier.{Principal, VerifyError}
use platform_engineering_lab.Auth.Guard.{Route, bearer_token}
use platform_engineering_lab.Auth.Guard.Laws.{IsAuthorized}
use platform_engineering_lab.Auth.Ownership.{is_admin, is_owner}
use platform_engineering_lab.Database.Errors.{JsError, is_database_unavailable}
use platform_engineering_lab.Database.Filter.{Exception, http, failure, filter_exception}
use platform_engineering_lab.Pipeline.{Answer, replied, refused, broken}
use platform_engineering_lab.Users.Service
use platform_engineering_lab.Users.Service.{User, user_missing}
use platform_engineering_lab.Users.Controller.{find_one_route}
use platform_engineering_lab.Users.App.{Deployment, State, get_user}
use platform_engineering_lab.Users.App.Laws.{shown, get_user-shown}
use platform_engineering_lab.Orders.Types.{World}
use platform_engineering_lab.Orders.Cache
use platform_engineering_lab.Orders.Cache.{Redis}
use platform_engineering_lab.Orders.Directory.{
  Fetched, response, failed, step_of, again, fetch_from, attempts, DirectoryConfig, UserService,
  user_request, given, cache_key, is_truthy, exists,
}
use platform_engineering_lab.Orders.Directory.Laws.{
  fetch_from_iff, exists-no_cache, Answers, lookup_result,
}

abbrev pub status_of : Answer User → ℕ
status_of (replied status user) = status
status_of (refused e challenge) = e.status
status_of (broken err) = 500

module _ {Body : Type 0} (d : Deployment Body) (config : DirectoryConfig) where
  abbrev pub base : String
  base = String.◌++◌ config.user_service_url "/v1/users/"

  -- What an attempt to reach user-service meets: the error of `fetch`, or the state of the service.
  abbrev pub Attempt : Type 0
  Attempt = Result String (State d.table)

  abbrev pub of_path : Option String → Option String → State d.table → Fetched
  of_path none authorization s = response 404
  of_path (some text) authorization s = response (status_of (get_user d authorization text s).0)

  abbrev pub reached : Option String → Option String → Attempt → Fetched
  reached path authorization (throw message) = failed message
  reached path authorization (ok s) = of_path path authorization s

  abbrev pub user_service : (ℕ → Attempt) → UserService
  user_service attempt request n =
      reached (strip_prefix base request.url) request.authorization (attempt n)

  -- At this attempt user-service finds the user, has no such user, or gives no answer.
  abbrev pub Finds : String → Attempt → Type 0
  Finds id a =
      (s : State d.table) × (a ≡ ok s)
      × ((u : User) × ((Service.find_one d.table id s.db).0 ≡ ok u))

  abbrev pub Misses : String → Attempt → Type 0
  Misses id a =
      (s : State d.table) × (a ≡ ok s)
      × ((Service.find_one d.table id s.db).0 ≡ throw (http user_missing))

  abbrev pub Fails : String → Attempt → Type 0
  Fails id a =
      ((m : String) × (a ≡ throw m))
      ⊎ ((s : State d.table) × (a ≡ ok s)
          × ((err : JsError) × ((Service.find_one d.table id s.db).0 ≡ throw (failure err))))
