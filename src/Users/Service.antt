-- ===== src/Users/Service.antt =====
-- users/users.service.ts, users/user.entity.ts and users/create-user.dto.ts. PostgreSQL and TypeORM
-- are a parameter, with what they document of the table of
-- migrations/1700000000000-create-users.ts.
pub mod Laws
use platform_engineering_lab.Prelude.{
  ℕ, ◌≡◌, ◌≢◌, ◌↔◌, String, Bool, true, false, Option, none, some, Result, ok, throw,
}
use platform_engineering_lab.Js.Text.{to_lower_case}
use platform_engineering_lab.Auth.Http.{HttpException}
use platform_engineering_lab.Database.Errors.{
  JsError, constraint_of, failed_query, has_text, is_unique_code,
}
use platform_engineering_lab.Database.Filter.{Exception, http, failure}

pub record CreateUserDto : Type 0 where
  pub id : String
  pub email : String
  pub name : String

pub record User : Type 0 where
  pub id : String
  pub email : String
  pub name : String
  pub created_at : ℕ

-- The table `users`; a row is found by its id, and emails are unique. `insert` gives the entity its
-- created_at, and the type UUID reads back in lower case. A call that returns has run on the table, which other requests may have changed before.
pub record UserTable : Type 1 where
  pub Db : Type 0
  pub row : Db → String → Option User
  pub insert : CreateUserDto → Db → Result JsError User × Db
  pub find : String → Db → Result JsError (Option User) × Db
  pub insert_row :
      (dto : CreateUserDto) (db db' : Db) (u : User)
      → insert dto db ≡ (ok u, db')
      → (row db dto.id ≡ none)
        × (row db' dto.id ≡ some (record u { id = to_lower_case u.id }))
        × (u.id ≡ dto.id)
        × (u.email ≡ dto.email)
        × (u.name ≡ dto.name)
  pub insert_keeps :
      (dto : CreateUserDto) (db : Db) (i : String) (u : User)
      → row db i ≡ some u
      → row (insert dto db).1 i ≡ some u
  pub find_reads :
      (i : String) (db db' : Db) (found : Option User)
      → find i db ≡ (ok found, db')
      → found ≡ row db' i
  pub find_keeps :
      (i : String) (db : Db) (j : String) (u : User)
      → row db j ≡ some u
      → row (find i db).1 j ≡ some u

abbrev pub pk_constraint : String
pk_constraint = "users_pkey"

abbrev pub conflict : Bool → HttpException
conflict true = record { status = 409; message = "A user with this id already exists" }
conflict false = record { status = 409; message = "A user with this email already exists" }

abbrev pub user_missing : HttpException
user_missing = record { status = 404; message = "User not found" }

-- The conflict of a unique violation, by the driver error's `constraint`; other errors are thrown on.
abbrev pub on_violation : Bool → JsError → JsError → Exception
on_violation true driver err = http (conflict (has_text pk_constraint (constraint_of driver)))
on_violation false driver err = failure err

abbrev pub on_query_failed : Option JsError → JsError → Exception
on_query_failed none err = failure err
on_query_failed (some driver) err = on_violation (is_unique_code (some driver)) driver err

unfoldable pub insert_error : JsError → Exception
insert_error err = on_query_failed (failed_query err) err

abbrev pub inserted : Result JsError User → Result Exception User
inserted (ok user) = ok user
inserted (throw err) = throw (insert_error err)

abbrev pub or_missing : Result JsError (Option User) → Result Exception User
or_missing (ok none) = throw (http user_missing)
or_missing (ok (some user)) = ok user
or_missing (throw err) = throw (failure err)

module _ (t : UserTable) where
  unfoldable pub create : CreateUserDto → t.Db → Result Exception User × t.Db
  create dto db = let (r, db') = t.insert dto db in (inserted r, db')

  unfoldable pub find_one : String → t.Db → Result Exception User × t.Db
  find_one id db = let (r, db') = t.find id db in (or_missing r, db')
