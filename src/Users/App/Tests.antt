-- ===== src/Users/App/Tests.antt =====
-- An admin creates a user, who then looks at it.
use native.Mathlib.Decide.{dec_le}
use platform_engineering_lab.Prelude.{
  ℕ, ◌≡◌, refl, String, true, false, [], ◌∷◌, some, Result, ok, throw, ◌==◌, if◌then◌else◌,
}
use platform_engineering_lab.Js.Text.{to_lower_case}
use platform_engineering_lab.Js.Pattern.{match_prefix, is_token}
use platform_engineering_lab.Auth.Http.{forbidden_exception}
use platform_engineering_lab.Auth.Verifier.{Principal, VerifyError, token_invalid, signature}
use platform_engineering_lab.Auth.Guard.{bearer_token, can_activate}
use platform_engineering_lab.Auth.Guard.Laws.{IsAuthorized}
use platform_engineering_lab.Auth.Ownership.{is_admin, assert_self_or_admin}
use platform_engineering_lab.Pipeline.{Answer, replied, refused, serve}
use platform_engineering_lab.Users.Samples.{new_user, user_rows}
use platform_engineering_lab.Users.Service
use platform_engineering_lab.Users.Service.{CreateUserDto, User}
use platform_engineering_lab.Users.Controller
use platform_engineering_lab.Users.Controller.{create_route, find_one_route}
use platform_engineering_lab.Users.App.{
  State, Deployment, created_by, post_user, shown_to, get_user,
}
use platform_engineering_lab.Users.App.Laws.{IsStored, post_user-IsStored}

abbrev two_tokens : String → Result VerifyError Principal
two_tokens token =
    if token == "root"
    then ok (record { sub = "ro"; roles = "admin" ∷ [] })
    else if token == "ab"
    then ok (record { sub = "ab"; roles = "customer" ∷ [] })
    else throw (token_invalid signature)

abbrev lab : Deployment CreateUserDto
lab = record { table = user_rows; verify = two_tokens; validation_pipe = ok; parse_uuid_pipe = ok }

abbrev ann : CreateUserDto
ann = record { id = "ab"; email = "ann@example.org"; name = "Ann" }

abbrev empty : State user_rows
empty = record { db = []; rejections = []; outages = 0 }

abbrev posted : Answer User × State user_rows
posted = post_user lab (some "Bearer root") ann empty

abbrev seen : Answer User × State user_rows
seen = get_user lab (some "Bearer ab") "AB" posted.1

serves : Unit {0}
unfolding serve can_activate bearer_token match_prefix is_token to_lower_case dec_le
    assert_self_or_admin post_user created_by get_user shown_to Controller.create
    Controller.find_one Service.create Service.find_one
serves = tt

customer_refused :
    post_user lab (some "Bearer ab") ann empty
    ≡ (refused forbidden_exception false, record empty { rejections = "role" ∷ [] })
unfolding serves
customer_refused = refl

post_user-IsStored_example :
    ((p : Principal) × IsAuthorized two_tokens create_route (some "Bearer root") p
      × (is_admin p ≡ true))
    × (◌≡◌ {A = ℕ} 201 201)
    × IsStored lab ann (new_user ann) posted.1.db
unfolding serves
post_user-IsStored_example =
    post_user-IsStored lab (some "Bearer root") ann 201 (new_user ann) empty posted.1 refl

own_seen : seen.0 ≡ replied 200 (record (new_user ann) { id = "ab" })
unfolding serves
own_seen = refl
