-- ===== src/Notifications/App.antt =====
-- GET /v1/notifications, from the request as it arrives to its answer. PostgreSQL, TypeORM and the
-- pipe of NestJS are parameters; the query reads the rows in the order of created_at, or fails.
pub mod Laws
mod Tests
use platform_engineering_lab.Prelude.{
  ℕ, suc, String, false, List, [], ◌∷◌, ◌++◌, Option, some, Result, ok, throw,
}
use platform_engineering_lab.Effects.{Act, ◌>>=◌, pure, lift}
use platform_engineering_lab.Auth.Http.{HttpException}
use platform_engineering_lab.Auth.Verifier.{Principal, VerifyError}
use platform_engineering_lab.Auth.Guard.{Route}
use platform_engineering_lab.Database.Errors.{JsError}
use platform_engineering_lab.Database.Filter.{Exception, failure}
use platform_engineering_lab.Pipeline.{Answer, piped, serve}
use platform_engineering_lab.Notifications.Listing.{Notification, by_order}

-- @Roles('customer', 'admin')
abbrev pub notifications_route : Route
notifications_route = record { is_public = false; roles = some ("customer" ∷ "admin" ∷ []) }

pub record Deployment : Type 1 where
  pub Db : Type 0
  pub query : Db → Result JsError (List Notification) × Db
  pub verify : String → Result VerifyError Principal
  pub parse_uuid_pipe : String → Result HttpException String

-- The database, the rejections that are counted, and the requests that met a database outage.
pub record State (Db : Type 0) : Type 0 where
  pub db : Db
  pub rejections : List String
  pub outages : ℕ

abbrev pub selected_by :
    Principal → String → Result JsError (List Notification) → Result Exception (List Notification)
selected_by principal order_id (ok rows) = ok (by_order principal order_id rows)
selected_by principal order_id (throw e) = throw (failure e)

module _ (d : Deployment) where
  abbrev pub reject : String → State d.Db → State d.Db
  reject reason s = record s { rejections = s.rejections ++ reason ∷ [] }

  abbrev pub outage : State d.Db → State d.Db
  outage s = record s { outages = suc s.outages }

  abbrev pub queried : Principal → String → Act Exception (State d.Db) (List Notification)
  queried principal order_id s =
      let (r, db') = d.query s.db in (selected_by principal order_id r, record s { db = db' })

  unfoldable pub shown_to : String → Principal → Act Exception (State d.Db) (ℕ × List Notification)
  shown_to text principal = do
    order_id ← lift (piped (d.parse_uuid_pipe text))
    notifications ← queried principal order_id
    pure (200, notifications)

  unfoldable pub get_notifications :
      Option String → String → State d.Db → Answer (List Notification) × State d.Db
  get_notifications authorization text =
      serve reject outage d.verify notifications_route authorization (shown_to text)
