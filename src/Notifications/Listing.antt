-- ===== src/Notifications/Listing.antt =====
-- findByOrder in notifications/notifications.service.ts, and notifications/notifications.controller.ts.
-- The rows of the table `notifications` are a list in the order of created_at; PostgreSQL keeps their
-- UUIDs in lower case.
pub mod Laws
use platform_engineering_lab.Prelude.{
  ℕ, String, Bool, true, false, ◌&&◌, List, Option, none, some, ◌==◌, filter, if◌then◌else◌,
}
use platform_engineering_lab.Js.Text.{to_lower_case}
use platform_engineering_lab.Auth.Verifier.{Principal}
use platform_engineering_lab.Auth.Ownership.{is_admin}

pub record Notification : Type 0 where
  pub id : String
  pub event_id : String
  pub order_id : String
  pub user_id : String
  pub created_at : ℕ

-- $2::uuid IS NULL OR user_id = $2::uuid
abbrev pub is_of_user : Option String → Notification → Bool
is_of_user none n = true
is_of_user (some user_id) n = n.user_id == to_lower_case user_id

-- order_id = $1 AND (…)
abbrev pub selected : String → Option String → Notification → Bool
selected order_id user_id n = (n.order_id == to_lower_case order_id) && is_of_user user_id n

unfoldable pub find_by_order : String → Option String → List Notification → List Notification
find_by_order order_id user_id rows = filter (selected order_id user_id) rows

unfoldable pub by_order : Principal → String → List Notification → List Notification
by_order principal order_id rows =
    find_by_order order_id (if is_admin principal then none else some principal.sub) rows
