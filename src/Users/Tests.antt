-- ===== src/Users/Tests.antt =====
-- Users in a table that is a list.
use platform_engineering_lab.Prelude.{◌≡◌, ◌⊎◌, refl, true, [], ok, throw}
use platform_engineering_lab.Js.Text.{to_lower_case}
use platform_engineering_lab.Database.Errors.{JsError}
use platform_engineering_lab.Database.Filter.{http, failure}
use platform_engineering_lab.Users.Service.{CreateUserDto, conflict, insert_error, create, find_one}
use platform_engineering_lab.Users.Service.Laws.{create-find_one}
use platform_engineering_lab.Users.Samples.{Rows, duplicate, new_user, user_rows}

abbrev ann : CreateUserDto
ann = record { id = "ab"; email = "ann@example.org"; name = "Ann" }

abbrev stored : Rows
stored = (create user_rows ann []).1

create-find_one_example :
    ("ann@example.org" ≡ ann.email)
    × ("Ann" ≡ ann.name)
    × (((find_one user_rows "ab" stored).0 ≡ ok (record (new_user ann) { id = to_lower_case "ab" }))
        ⊎ ((e : JsError) × ((find_one user_rows "ab" stored).0 ≡ throw (failure e))))
unfolding create
create-find_one_example =
    create-find_one user_rows ann [] stored (new_user ann) refl (record { rows = λ i u h. h })

id_conflict : insert_error duplicate ≡ http (conflict true)
unfolding insert_error
id_conflict = refl
