-- ===== src/Users/Service/Laws.antt =====
-- Users that are created are found; what a failed insert is answered.
use platform_engineering_lab.Prelude.{
  ◌≡◌, ◌⊎◌, inl, inr, ◌∙◌, String, true, false, some, Result, ok, throw, arith, Result-cases,
  Option-cases, Bool-cases,
}
use platform_engineering_lab.Js.Text.{to_lower_case}
use platform_engineering_lab.Database.Errors.{
  JsError, constraint_of, failed_query, has_text, is_unique_code, is_unique_violation,
}
use platform_engineering_lab.Database.Filter.{http, failure}
use platform_engineering_lab.Users.Service.{
  CreateUserDto, User, UserTable, conflict, insert_error, inserted, create, find_one, pk_constraint,
}

module _ (t : UserTable) where
  returned : (r : Result JsError User) (u : User) → inserted r ≡ ok u → r ≡ ok u
  returned (ok v) u h = cc
  returned (throw e) u h = absurd (cc)

  -- A later table, with every row that there was.
  pub record IsLater (db db' : t.Db) : Type 0 where
    pub rows : (i : String) (u : User) → t.row db i ≡ some u → t.row db' i ≡ some u

  pub insert-of :
      (dto : CreateUserDto) (db : t.Db) (u : User)
      → (create t dto db).0 ≡ ok u
      → t.insert dto db ≡ (ok u, (t.insert dto db).1)
  unfolding create
  insert-of dto db u h i = (returned (t.insert dto db).0 u h i, (t.insert dto db).1)

  find_one-found :
      (id : String) (db : t.Db) (u : User)
      → t.row db id ≡ some u
      → ((find_one t id db).0 ≡ ok u) ⊎ ((e : JsError) × ((find_one t id db).0 ≡ throw (failure e)))
  unfolding find_one
  find_one-found id db u h = elim (Result-cases (t.find id db).0) [
    | inl (found, e) ↦
        let whole : found ≡ some u =
          t.find_reads id db (t.find id db).1 found (λ i. (e i, (t.find id db).1))
          ∙ t.find_keeps id db id u h in
        inl (ground arith)
    | inr (err, e) ↦ inr (err, ground arith)
  ]

  module _ (dto : CreateUserDto) (db later : t.Db) (u : User) (first : (create t dto db).0 ≡ ok u)
      (after : IsLater (create t dto db).1 later) where
    -- A user that has been created is found at any later time, with the data of the request and the id
    -- in lower case, unless the query fails.
    pub create-find_one :
        (u.email ≡ dto.email)
        × (u.name ≡ dto.name)
        × (((find_one t dto.id later).0 ≡ ok (record u { id = to_lower_case dto.id }))
            ⊎ ((e : JsError) × ((find_one t dto.id later).0 ≡ throw (failure e))))
    unfolding create
    create-find_one =
        let (new, row, same_id, email, name) =
          t.insert_row dto db (t.insert dto db).1 u (insert-of dto db u first) in
        (
          email,
          name,
          find_one-found dto.id later (record u { id = to_lower_case dto.id })
              (after.rows dto.id (record u { id = to_lower_case dto.id }) (rw same_id at row)),
        )

-- An insert that fails is answered 409 exactly when the error is a unique violation, as a conflict of
-- the id or of the email by the constraint that the driver names; any other error is thrown on as it
-- is.
pub insert_error-branches :
    (err : JsError)
    → ((is_unique_violation err ≡ true)
        × ((driver : JsError) × (failed_query err ≡ some driver)
            × (insert_error err ≡ http (conflict (has_text pk_constraint (constraint_of driver))))))
      ⊎ ((is_unique_violation err ≡ false) × (insert_error err ≡ failure err))
unfolding insert_error is_unique_violation
insert_error-branches err = elim (Option-cases (failed_query err)) [
  | inl other ↦ inr (ground arith, ground arith)
  | inr (driver, e) ↦ elim (Bool-cases (is_unique_code (some driver))) [
    | inl unique ↦ inl (ground arith, (driver, e, ground arith))
    | inr other ↦ inr (ground arith, ground arith)
  ]
]
