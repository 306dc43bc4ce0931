-- ===== src/Auth/Ownership.antt =====
-- auth/auth.decorators.ts: the ownership rule.
pub mod Laws
use platform_engineering_lab.Prelude.{
  String, Bool, false, ◌==◌, ◌||◌, if◌then◌else◌, Result, ok, throw,
}
use platform_engineering_lab.Js.Text.{to_lower_case}
use platform_engineering_lab.Auth.Http.{Refusal, forbidden_exception}
use platform_engineering_lab.Auth.Verifier.{Principal}
use platform_engineering_lab.Auth.Guard.{includes}

abbrev pub is_admin : Principal → Bool
is_admin p = includes "admin" p.roles

abbrev pub is_owner : Principal → String → Bool
is_owner p user_id = p.sub == to_lower_case user_id

unfoldable pub assert_self_or_admin : Principal → String → Result Refusal (Unit {0})
assert_self_or_admin p user_id =
    if is_admin p || is_owner p user_id
    then ok tt
    else throw (record { reason = "not_owner"; challenge = false; exception = forbidden_exception })

unfoldable pub owner_or_not_found : Principal → String → String → Result Refusal (Unit {0})
owner_or_not_found p owner_id not_found_message =
    if is_admin p || is_owner p owner_id
    then ok tt
    else throw (record {
      reason = "not_owner";
      challenge = false;
      exception = record { status = 404; message = not_found_message };
    })
