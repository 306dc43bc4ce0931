-- ===== src/Users/App.antt =====
-- The two routes of users/users.controller.ts, from the request as it arrives to its answer. The pipes
-- are parameters, as class-validator and NestJS are.
pub mod Laws
mod Tests
use platform_engineering_lab.Prelude.{
  ℕ, suc, String, List, [], ◌∷◌, ◌++◌, Option, Result, ok, throw,
}
use platform_engineering_lab.Effects.{Act, ◌>>=◌, pure, lift}
use platform_engineering_lab.Auth.Http.{HttpException}
use platform_engineering_lab.Auth.Verifier.{Principal, VerifyError}
use platform_engineering_lab.Database.Filter.{Exception}
use platform_engineering_lab.Pipeline.{Answer, piped, serve}
use platform_engineering_lab.Users.Service.{CreateUserDto, User, UserTable}
use platform_engineering_lab.Users.Controller
use platform_engineering_lab.Users.Controller.{create_route, find_one_route}

-- The database, the rejections that are counted, and the requests that met a database outage.
pub record State (t : UserTable) : Type 0 where
  pub db : t.Db
  pub rejections : List String
  pub outages : ℕ

-- What the service is started with, and the parties that it talks to.
pub record Deployment (Body : Type 0) : Type 1 where
  pub table : UserTable
  pub verify : String → Result VerifyError Principal
  pub validation_pipe : Body → Result HttpException CreateUserDto
  pub parse_uuid_pipe : String → Result HttpException String

-- A handler's answer with its table and its rejections, on the state of the service.
abbrev pub on_state :
    {t : UserTable} {A : Type 0}
    → (t.Db → Result Exception A × t.Db × List String)
    → Act Exception (State t) A
on_state call s =
    let (r, db', rejected) = call s.db in
    (r, record s { db = db'; rejections = s.rejections ++ rejected })

module _ {Body : Type 0} (d : Deployment Body) where
  abbrev pub reject : String → State d.table → State d.table
  reject reason s = record s { rejections = s.rejections ++ reason ∷ [] }

  abbrev pub outage : State d.table → State d.table
  outage s = record s { outages = suc s.outages }

  -- @HttpCode(201)
  unfoldable pub created_by : Body → Principal → Act Exception (State d.table) (ℕ × User)
  created_by body principal = do
    dto ← lift (piped (d.validation_pipe body))
    user ← on_state (Controller.create d.table dto)
    pure (201, user)

  -- POST /v1/users
  unfoldable pub post_user : Option String → Body → State d.table → Answer User × State d.table
  post_user authorization body =
      serve reject outage d.verify create_route authorization (created_by body)

  unfoldable pub shown_to : String → Principal → Act Exception (State d.table) (ℕ × User)
  shown_to text principal = do
    id ← lift (piped (d.parse_uuid_pipe text))
    user ← on_state (Controller.find_one d.table principal id)
    pure (200, user)

  -- GET /v1/users/:id
  unfoldable pub get_user : Option String → String → State d.table → Answer User × State d.table
  get_user authorization text =
      serve reject outage d.verify find_one_route authorization (shown_to text)
