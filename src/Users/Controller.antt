-- ===== src/Users/Controller.antt =====
-- users/users.controller.ts, behind the guard: the roles of its routes and its two handlers.
pub mod Laws
use platform_engineering_lab.Prelude.{
  String, Bool, false, List, [], ◌∷◌, Option, some, Result, ok, throw, ◌++◌,
}
use platform_engineering_lab.Auth.Http.{Refusal}
use platform_engineering_lab.Auth.Verifier.{Principal}
use platform_engineering_lab.Auth.Guard.{Route}
use platform_engineering_lab.Auth.Ownership.{assert_self_or_admin}
use platform_engineering_lab.Database.Filter.{Exception, http}
use platform_engineering_lab.Users.Service
use platform_engineering_lab.Users.Service.{CreateUserDto, User, UserTable}

-- @Roles('admin')
abbrev pub create_route : Route
create_route = record { is_public = false; roles = some ("admin" ∷ []) }

-- @Roles('customer', 'admin')
abbrev pub find_one_route : Route
find_one_route = record { is_public = false; roles = some ("customer" ∷ "admin" ∷ []) }

-- The answer, the table after it, and the rejections that it counts.
module _ (t : UserTable) where
  unfoldable pub create : CreateUserDto → t.Db → Result Exception User × t.Db × List String
  create dto db = let (r, db') = Service.create t dto db in (r, db', [])

  abbrev pub if_allowed :
      Result Refusal (Unit {0}) → String → t.Db → Result Exception User × t.Db × List String
  if_allowed (ok done) id db = let (r, db') = Service.find_one t id db in (r, db', [])
  if_allowed (throw r) id db = (throw (http r.exception), db, r.reason ∷ [])

  unfoldable pub find_one : Principal → String → t.Db → Result Exception User × t.Db × List String
  find_one principal id db = if_allowed (assert_self_or_admin principal id) id db
