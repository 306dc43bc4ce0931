-- ===== src/UserLookup/Refinement.antt =====
-- The directory of order-service over time, against the user-service of this repository: requests to
-- user-service change its table between the lookups, and a lookup may fail to reach it.
mod Tests
use platform_engineering_lab.Prelude.{
  ℕ, ◌≡◌, inl, inr, refl, sym, ap, ◌∙◌, String, Bool, true, false, ◌||◌, List, Option, none, some,
  Result, ok, throw, arith, Bool-cases, Option-cases, Result-cases,
}
use platform_engineering_lab.Auth.Verifier.{Principal}
use platform_engineering_lab.Auth.Guard.Laws.{IsAuthorized}
use platform_engineering_lab.Auth.Ownership.{is_admin, is_owner}
use platform_engineering_lab.Database.Errors.{JsError}
use platform_engineering_lab.Database.Filter.{Exception, http}
use platform_engineering_lab.Users.Service
use platform_engineering_lab.Users.Service.{User, UserTable, user_missing}
use platform_engineering_lab.Users.Controller.{find_one_route}
use platform_engineering_lab.Users.App.{Deployment, State}
use platform_engineering_lab.Orders.Types.{World}
use platform_engineering_lab.Orders.Cache.{Redis}
use platform_engineering_lab.Orders.Directory.{
  Fetched, response, DirectoryConfig, UserService, user_request,
}
use platform_engineering_lab.Orders.Directory.Refinement.{
  RedisLaws, Event, answers, IsGrowing, AllMay, AllMatch, IsHonest, IsSound, run, run-AllMatch,
}
use platform_engineering_lab.UserLookup.{Attempt, reached, user_service, Finds, Misses}
use platform_engineering_lab.UserLookup.Laws.{path_asked, given-carried, fetched-200, fetched-404}

abbrev is_row : Option User → Bool
is_row none = false
is_row (some u) = true

-- A query alone changes no row.
abbrev pub ReadsOnly : UserTable → Type 0
ReadsOnly t = (i j : String) (db : t.Db) → t.row (t.find i db).1 j ≡ t.row db j

module _ {Body : Type 0} (d : Deployment Body) (config : DirectoryConfig) where
  -- The table has a row of that id, in any case of its letters.
  abbrev pub has : State d.table → String → Bool
  has s id = is_row (d.table.row s.db id)

  -- user-service shows the user to the caller: the caller is that user or an admin, and the id is valid.
  abbrev pub MaySee : String → Option String → Type 0
  MaySee id authorization =
      (p : Principal) × IsAuthorized d.verify find_one_route authorization p
      × (d.parse_uuid_pipe id ≡ ok id)
      × ((is_admin p || is_owner p id) ≡ true)

  abbrev pub attempt_of : Option String → State d.table → Attempt d config
  attempt_of none s = ok s
  attempt_of (some message) s = throw message

  -- The attempts of the n-th lookup, of which any may fail to reach the service.
  abbrev pub service : (ℕ → ℕ → Option String) → ℕ → State d.table → UserService
  service fails n s = user_service d config (λ k. attempt_of (fails n k) s)

  same_state : (o : Option String) (s s' : State d.table) → attempt_of o s ≡ ok s' → s ≡ s'
  same_state none s s' h = cc
  same_state (some m) s s' h = absurd (cc)

  module _ (reads_only : ReadsOnly d.table) where
    read_row :
        (id : String) (s : State d.table) (found : Option User)
        → (d.table.find id s.db).0 ≡ ok found
        → found ≡ d.table.row s.db id
    read_row id s found e =
        d.table.find_reads id s.db (d.table.find id s.db).1 found
          (λ i. (e i, (d.table.find id s.db).1))
        ∙ reads_only id id s.db

    found-has :
        (id : String) (s : State d.table) (u : User)
        → (Service.find_one d.table id s.db).0 ≡ ok u
        → has s id ≡ true
    unfolding Service.find_one
    found-has id s u h = elim (Result-cases (d.table.find id s.db).0) [
      | inl (none, e) ↦ absurd (ground arith)
      | inl (some v, e) ↦ ap is_row (sym (read_row id s (some v) e))
      | inr (err, e) ↦ absurd (ground arith)
    ]

    missing-has :
        (id : String) (s : State d.table)
        → (Service.find_one d.table id s.db).0 ≡ throw (http user_missing)
        → has s id ≡ false
    unfolding Service.find_one
    missing-has id s h = elim (Result-cases (d.table.find id s.db).0) [
      | inl (none, e) ↦ ap is_row (sym (read_row id s none e))
      | inl (some v, e) ↦ absurd (ground arith)
      | inr (err, e) ↦ absurd (ground arith)
    ]

    module _ (fails : ℕ → ℕ → Option String) (n : ℕ) (s : State d.table) (id request_id : String)
        (authorization : Option String) (k : ℕ) (may : MaySee id authorization) where
      asked :
          service fails n s (user_request config id request_id authorization) k
          ≡ reached d config (some id) authorization (attempt_of (fails n k) s)
      asked =
          ap
            (λ path.
              reached d config path (user_request config id request_id authorization).authorization
                (attempt_of (fails n k) s))
            (path_asked d config id request_id authorization)
          ∙ ap (λ a. reached d config (some id) a (attempt_of (fails n k) s))
              (given-carried d.verify find_one_route authorization may.0 may.1)

      answered-200 :
          service fails n s (user_request config id request_id authorization) k ≡ response 200
          → has s id ≡ true
      answered-200 h =
          let (s', at, (u, there)) =
            (fetched-200 d config authorization id may.0 may.1 may.2 may.3
                (attempt_of (fails n k) s)).0
              (sym asked ∙ h) in
          ap (λ x. has x id) (same_state (fails n k) s s' at) ∙ found-has id s' u there

      answered-404 :
          service fails n s (user_request config id request_id authorization) k ≡ response 404
          → has s id ≡ false
      answered-404 h =
          let (s', at, missing) =
            (fetched-404 d config authorization id may.0 may.1 may.2 may.3
                (attempt_of (fails n k) s)).0
              (sym asked ∙ h) in
          ap (λ x. has x id) (same_state (fails n k) s s' at) ∙ missing-has id s' missing

    service-IsHonest : (fails : ℕ → ℕ → Option String) → IsHonest has MaySee config (service fails)
    service-IsHonest fails = record {
      found = λ n s u r a k may h. answered-200 fails n s u r a k may h;
      missing = λ n s u r a k may h. answered-404 fails n s u r a k may h;
    }

  -- The directory of order-service refines the table of user-service, retries and cache included: over
  -- any sequence of changes of user-service that remove no user, and of lookups by callers who may see
  -- the user, in which any attempt may fail and Redis may lose values or fail at any time, each lookup
  -- answers whether the table has a row of the user by then, or 503; above all, no cached answer is out
  -- of date. The table does not change during a lookup, and the cache has at first only users of the
  -- table.
  pub run-refines :
      (redis : Redis) (laws : RedisLaws redis) {Db Broker : Type 0} (reads_only : ReadsOnly d.table)
      (fails : ℕ → ℕ → Option String) (es : List (Event (State d.table))) (s : State d.table)
      (n : ℕ) (w : World Db redis.State Broker)
      → AllMay MaySee es
      → IsGrowing has es s
      → IsSound has redis laws s w.redis
      → AllMatch (run has redis laws config (service fails) es s n w) (answers has es s)
  run-refines redis laws reads_only fails es s n w may grows sound =
      run-AllMatch has redis laws config (service fails) MaySee (service-IsHonest reads_only fails)
        es s n w may grows sound
