-- ===== src/Notifications/App/Tests.antt =====
-- A customer among the notifications of two, and a database that is down.
use native.Mathlib.Decide.{dec_le}
use platform_engineering_lab.Prelude.{
  ◌≡◌, ◌⊎◌, refl, String, false, true, List, [], ◌∷◌, none, some, Result, ok, throw, All, ◌==◌,
  if◌then◌else◌,
}
use platform_engineering_lab.Js.Text.{to_lower_case}
use platform_engineering_lab.Js.Pattern.{match_prefix, is_token}
use platform_engineering_lab.Auth.Http.{HttpException}
use platform_engineering_lab.Auth.Verifier.{Principal, VerifyError, token_invalid, signature}
use platform_engineering_lab.Auth.Guard.{bearer_token, can_activate}
use platform_engineering_lab.Auth.Guard.Laws.{IsAuthorized}
use platform_engineering_lab.Auth.Ownership.{is_admin}
use platform_engineering_lab.Database.Errors.{
  JsError, nil, error, is_connection_code, is_database_unavailable, is_unavailable_from,
}
use platform_engineering_lab.Database.Filter.{database_down, filter_exception}
use platform_engineering_lab.Pipeline.{refused, serve}
use platform_engineering_lab.Notifications.Listing.{Notification, find_by_order, by_order}
use platform_engineering_lab.Notifications.App.{
  State, Deployment, notifications_route, shown_to, get_notifications,
}
use platform_engineering_lab.Notifications.App.Laws.{Own, get_notifications-Own}

abbrev notice : String → Notification
notice user_id = record {
  id = "n";
  event_id = "e";
  order_id = "ab";
  user_id = user_id;
  created_at = 0;
}

abbrev one_token : String → Result VerifyError Principal
one_token token =
    if token == "t"
    then ok (record { sub = "cd"; roles = "customer" ∷ [] })
    else throw (token_invalid signature)

abbrev lab : Result JsError (List Notification) → Deployment
lab answer = record {
  Db = Unit;
  query = λ db. (answer, db);
  verify = one_token;
  parse_uuid_pipe = ok;
}

abbrev two_users : Deployment
two_users = lab (ok (notice "cd" ∷ notice "ef" ∷ []))

abbrev quiet : State Unit
quiet = record { db = tt; rejections = []; outages = 0 }

serves : Unit {0}
unfolding serve can_activate bearer_token match_prefix is_token to_lower_case dec_le
    get_notifications shown_to by_order find_by_order
serves = tt

outage_answered :
    get_notifications
      (lab (throw (error false (some "ECONNREFUSED") none none nil nil)))
      (some "Bearer t")
      "ab"
      quiet
    ≡ (refused database_down false, record quiet { outages = 1 })
unfolding serves filter_exception is_database_unavailable is_unavailable_from is_connection_code
outage_answered = refl

get_notifications-Own_example :
    (p : Principal) × IsAuthorized one_token notifications_route (some "Bearer t") p
    × ((id : String) × (◌≡◌ {A = Result HttpException String} (ok "ab") (ok id))
        × ((is_admin p ≡ true) ⊎ All (Own p id) (notice "cd" ∷ [])))
unfolding serves
get_notifications-Own_example =
    get_notifications-Own two_users (some "Bearer t") "ab" 200 (notice "cd" ∷ []) quiet quiet refl
