-- ===== src/Users/Controller/Laws.antt =====
-- Who sees a user.
use platform_engineering_lab.Prelude.{
  ◌≡◌, ◌⊎◌, inl, inr, String, true, false, ◌||◌, [], ◌∷◌, throw, arith, Bool-cases,
}
use platform_engineering_lab.Auth.Http.{forbidden_exception}
use platform_engineering_lab.Auth.Verifier.{Principal}
use platform_engineering_lab.Auth.Ownership.{is_admin, is_owner, assert_self_or_admin}
use platform_engineering_lab.Database.Filter.{http}
use platform_engineering_lab.Users.Service
use platform_engineering_lab.Users.Service.{User, UserTable}
use platform_engineering_lab.Users.Controller.{find_one}

-- A caller who is neither an admin nor the user is answered 403 without a query, so alike for users
-- that exist and for ids that do not; any other caller gets the service's answer.
pub find_one-branches :
    (t : UserTable) (p : Principal) (id : String) (db : t.Db)
    → (((is_admin p || is_owner p id) ≡ true)
        × (find_one t p id db ≡ ((Service.find_one t id db).0, (Service.find_one t id db).1, [])))
      ⊎ (((is_admin p || is_owner p id) ≡ false)
          × (find_one t p id db ≡ (throw (http forbidden_exception), db, "not_owner" ∷ [])))
unfolding find_one assert_self_or_admin
find_one-branches t p id db = elim (Bool-cases (is_admin p || is_owner p id)) [
  | inl may ↦ inl (may, ground arith)
  | inr foreign ↦ inr (foreign, ground arith)
]
