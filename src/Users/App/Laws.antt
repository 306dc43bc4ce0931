-- ===== src/Users/App/Laws.antt =====
-- Who creates users, and who sees them.
use platform_engineering_lab.Prelude.{
  ℕ, ◌≡◌, ◌⊎◌, refl, sym, ap, subst, ◌∙◌, String, Bool, true, false, ◌||◌, List, [], ◌∷◌, ◌++◌,
  Option, some, Result, ok, throw, arith, inl, inr,
}
use platform_engineering_lab.Effects.{◌>>=◌, pure, lift, bind-eq-ok}
use platform_engineering_lab.Js.Text.{to_lower_case}
use platform_engineering_lab.Auth.Http.{forbidden_exception}
use platform_engineering_lab.Auth.Verifier.{Principal}
use platform_engineering_lab.Auth.Guard.{has_role}
use platform_engineering_lab.Auth.Guard.Laws.{IsAuthorized}
use platform_engineering_lab.Auth.Ownership.{is_admin, is_owner}
use platform_engineering_lab.Database.Filter.{Exception, http, filter_exception}
use platform_engineering_lab.Pipeline.{Answer, replied, piped, answered, filtered, of_exception}
use platform_engineering_lab.Pipeline.Laws.{serve-replied, serve-entered, piped-ok}
use platform_engineering_lab.Users.Service
use platform_engineering_lab.Users.Service.{CreateUserDto, User, UserTable}
use platform_engineering_lab.Users.Service.Laws.{insert-of}
use platform_engineering_lab.Users.Controller
use platform_engineering_lab.Users.Controller.Laws.{find_one-branches}
use platform_engineering_lab.Users.Controller.{create_route, find_one_route}
use platform_engineering_lab.Users.App.{
  State, Deployment, on_state, reject, outage, created_by, post_user, shown_to, get_user,
}

only_admin : (p : Principal) → has_role create_route.roles p ≡ true → is_admin p ≡ true
only_admin p h = ground arith

module _ {t : UserTable} {A : Type 0} where
  on_state-ok :
      (call : t.Db → Result Exception A × t.Db × List String) (a : A) (s s' : State t)
      → on_state call s ≡ (ok a, s')
      → ((call s.db).0 ≡ ok a) × (s'.db ≡ (call s.db).1)
  on_state-ok call a s s' h = (ap (λ x. x.0) h, sym (ap (λ x. x.1.db) h))

module _ {Body : Type 0} (d : Deployment Body) where
  -- The stored user of a request.
  pub record IsStored (body : Body) (u : User) (db : d.table.Db) : Type 0 where
    pub dto : CreateUserDto
    pub valid : d.validation_pipe body ≡ ok dto
    pub id : u.id ≡ dto.id
    pub email : u.email ≡ dto.email
    pub name : u.name ≡ dto.name
    pub row : d.table.row db dto.id ≡ some (record u { id = to_lower_case u.id })

  created_by-IsStored :
      (body : Body) (p : Principal) (status : ℕ) (u : User) (w w' : State d.table)
      → created_by d body p w ≡ (ok (status, u), w')
      → (status ≡ 201) × IsStored body u w'.db
  unfolding created_by Controller.create Service.create
  created_by-IsStored body p status u w w' h =
      let (dto, w₁, e, h₁) =
        bind-eq-ok (lift (piped (d.validation_pipe body)))
          (λ dto. on_state (Controller.create d.table dto) >>= λ user. pure (201, user)) w h in
      let (v, w₂, made, h₂) =
        bind-eq-ok (on_state (Controller.create d.table dto)) (λ user. pure (201, user)) w₁ h₁ in
      let (valid, same) = piped-ok (d.validation_pipe body) dto w w₁ e in
      let (returned, db) = on_state-ok (Controller.create d.table dto) v w₁ w₂ made in
      let whole : v ≡ u = cc in
      let last : w₂ ≡ w' = cc in
      let (_, row, id, email, name) =
        d.table.insert_row dto w₁.db (d.table.insert dto w₁.db).1 v
          (insert-of d.table dto w₁.db v returned) in
      (
        cc,
        record {
          dto = dto;
          valid = valid;
          id = rw whole at id;
          email = rw whole at email;
          name = rw whole at name;
          row = rw (whole, sym db ∙ ap (λ x. x.db) last) at row;
        },
      )

  -- A request that user-service answers with a new user carries a token that verifies, of an admin,
  -- and a body that is valid; the answer is 201, and the user is stored with the data of the body.
  pub post_user-IsStored :
      (authorization : Option String) (body : Body) (status : ℕ) (u : User) (w w' : State d.table)
      → post_user d authorization body w ≡ (replied status u, w')
      → ((p : Principal) × IsAuthorized d.verify create_route authorization p × (is_admin p ≡ true))
        × (status ≡ 201)
        × IsStored body u w'.db
  unfolding post_user
  post_user-IsStored authorization body status u w w' h =
      let (p, served, ran) =
        serve-replied (reject d) (outage d) d.verify create_route authorization (created_by d body)
          refl status u w w' h in
      let (created, kept) = created_by-IsStored body p status u w w' ran in
      ((p, served, only_admin p served.role), created, kept)

  shown_to-own :
      (text : String) (p : Principal) (status : ℕ) (u : User) (w w' : State d.table)
      → shown_to d text p w ≡ (ok (status, u), w')
      → (id : String) × (d.parse_uuid_pipe text ≡ ok id)
        × ((is_admin p || is_owner p id) ≡ true)
        × ((Service.find_one d.table id w.db).0 ≡ ok u)
  unfolding shown_to
  shown_to-own text p status u w w' h =
      let (id, w₁, e, h₁) =
        bind-eq-ok (lift (piped (d.parse_uuid_pipe text)))
          (λ id. on_state (Controller.find_one d.table p id) >>= λ user. pure (200, user)) w h in
      let (v, w₂, found, h₂) =
        bind-eq-ok (on_state (Controller.find_one d.table p id)) (λ user. pure (200, user)) w₁ h₁ in
      let (valid, same) = piped-ok (d.parse_uuid_pipe text) id w w₁ e in
      let whole : v ≡ u = cc in
      let (returned, _) = on_state-ok (Controller.find_one d.table p id) v w₁ w₂ found in
      let (may, there) = allowed id p v w₁.db returned in
      (id, valid, may, rw (whole, same) at there)
    where
      allowed :
          (id : String) (p : Principal) (v : User) (db : d.table.Db)
          → (Controller.find_one d.table p id db).0 ≡ ok v
          → ((is_admin p || is_owner p id) ≡ true) × ((Service.find_one d.table id db).0 ≡ ok v)
      allowed id p v db h = elim (find_one-branches d.table p id db) [
        | inl (may, e) ↦ (may, sym (ap (λ x. x.0) e) ∙ h)
        | inr (foreign, e) ↦ absurd (cc (ap (λ x. x.0) e, h))
      ]

  -- A lookup that user-service answers with a user carries a token that verifies, of an admin or of
  -- that user.
  pub get_user-own :
      (authorization : Option String) (text : String) (status : ℕ) (u : User) (w w' : State d.table)
      → get_user d authorization text w ≡ (replied status u, w')
      → (p : Principal) × IsAuthorized d.verify find_one_route authorization p
        × ((id : String) × (d.parse_uuid_pipe text ≡ ok id)
            × ((is_admin p || is_owner p id) ≡ true)
            × ((Service.find_one d.table id w.db).0 ≡ ok u))
  unfolding get_user
  get_user-own authorization text status u w w' h =
      let (p, served, ran) =
        serve-replied (reject d) (outage d) d.verify find_one_route authorization (shown_to d text)
          refl status u w w' h in
      (p, served, shown_to-own text p status u w w' ran)

  -- What the answer of the service comes to.
  abbrev pub shown : Result Exception User → Answer User
  shown (ok u) = replied 200 u
  shown (throw x) = of_exception (filter_exception x).1

  filtered-answer :
      (x : Bool × Exception) (w : State d.table)
      → (filtered {A = User} (reject d) (outage d) x w).0 ≡ of_exception x.1
  filtered-answer (true, x) w = refl
  filtered-answer (false, x) w = refl

  answered-shown :
      (r : Result Exception User) (db : d.table.Db) (rejected : List String) (w : State d.table)
      → (answered
          (reject d)
          (outage d)
          ((on_state (λ old. (r, db, rejected)) >>= λ user. pure (200, user)) w)).0
        ≡ shown r
  answered-shown (ok u) db rejected w = refl
  answered-shown (throw x) db rejected w =
      filtered-answer (filter_exception x)
        (record w { db = db; rejections = w.rejections ++ rejected })

  shown_to-may :
      (text : String) (p : Principal) (id : String) (w : State d.table)
      → d.parse_uuid_pipe text ≡ ok id
      → (is_admin p || is_owner p id) ≡ true
      → (answered (reject d) (outage d) (shown_to d text p w)).0
        ≡ shown (Service.find_one d.table id w.db).0
  unfolding shown_to
  shown_to-may text p id w valid may = rw valid (
      subst
        (λ call.
          (answered (reject d) (outage d)
            ((on_state (λ old. call) >>= λ user. pure (200, user)) w)).0
          ≡ shown (Service.find_one d.table id w.db).0)
        (sym (found_by (find_one-branches d.table p id w.db)))
        (answered-shown (Service.find_one d.table id w.db).0 (Service.find_one d.table id w.db).1 []
          w))
    where
      found_by :
          (((is_admin p || is_owner p id) ≡ true)
              × (Controller.find_one d.table p id w.db ≡ (
                (Service.find_one d.table id w.db).0,
                (Service.find_one d.table id w.db).1,
                [],
              )))
            ⊎ (((is_admin p || is_owner p id) ≡ false)
                × (Controller.find_one d.table p id w.db
                    ≡ (throw (http forbidden_exception), w.db, "not_owner" ∷ [])))
          → Controller.find_one d.table p id w.db
            ≡ ((Service.find_one d.table id w.db).0, (Service.find_one d.table id w.db).1, [])
      found_by (inl (_, e)) = e
      found_by (inr (not, _)) = absurd (cc (may, not))

  -- An admin, or the user itself, gets what the service finds.
  pub get_user-shown :
      (authorization : Option String) (text : String) (p : Principal) (id : String)
      (w : State d.table)
      → IsAuthorized d.verify find_one_route authorization p
      → d.parse_uuid_pipe text ≡ ok id
      → (is_admin p || is_owner p id) ≡ true
      → (get_user d authorization text w).0 ≡ shown (Service.find_one d.table id w.db).0
  unfolding get_user
  get_user-shown authorization text p id w served valid may =
      ap (λ x. x.0)
        (serve-entered (reject d) (outage d) d.verify find_one_route authorization (shown_to d text)
          p refl served w)
      ∙ shown_to-may text p id w valid may
