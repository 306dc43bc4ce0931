-- ===== src/Users/Samples.antt =====
-- A table of users that is a list.
use platform_engineering_lab.Prelude.{
  ◌≡◌, refl, sym, ap, ◌∙◌, inl, inr, String, true, false, List, [], ◌∷◌, Option, none, some, Result,
  ok, throw, ◌==◌, if◌then◌else◌, eq_refl, eq_iff, arith, Bool-cases,
}
use platform_engineering_lab.Js.Text.{to_lower_case}
use platform_engineering_lab.Database.Errors.{JsError, nil, error}
use platform_engineering_lab.Users.Service.{CreateUserDto, User, UserTable}

abbrev pub Rows : Type 0
Rows = List (String × User)

abbrev pub row_at : Rows → String → Option User
row_at [] k = none
row_at ((j, u) ∷ rows) k = let rest = row_at rows k in if j == k then some u else rest

-- The type UUID compares without regard to case.
abbrev pub row : Rows → String → Option User
row rows i = row_at rows (to_lower_case i)

pub read_back :
    (rows rows' : Rows) (i : String) (found : Option User)
    → ◌≡◌ {A = Result JsError (Option User) × Rows} (ok (row rows i), rows) (ok found, rows')
    → found ≡ row rows' i
read_back rows rows' i found h =
    sym (ap (λ p. elim p.0 as (λ _. Option User) [ ok a ↦ a | throw e ↦ none ]) h)
    ∙ ap (λ p. row p.1 i) h

abbrev pub duplicate : JsError
duplicate =
    error true none none none (error false (some "23505") none (some "users_pkey") nil nil) nil

abbrev pub new_user : CreateUserDto → User
new_user dto = record { id = dto.id; email = dto.email; name = dto.name; created_at = 0 }

abbrev pub lowered : User → User
lowered u = record u { id = to_lower_case u.id }

abbrev pub insert_if : Option User → CreateUserDto → Rows → Result JsError User × Rows
insert_if (some old) dto rows = (throw duplicate, rows)
insert_if none dto rows = (ok (new_user dto), (to_lower_case dto.id, lowered (new_user dto)) ∷ rows)

pub found_only_new :
    (old : Option User) (dto : CreateUserDto) (rows rows' : Rows) (u : User)
    → old ≡ row rows dto.id
    → insert_if old dto rows ≡ (ok u, rows')
    → (row rows dto.id ≡ none)
      × (row rows' dto.id ≡ some (lowered u))
      × (u.id ≡ dto.id)
      × (u.email ≡ dto.email)
      × (u.name ≡ dto.name)
found_only_new (some old) dto rows rows' u e h = cc
found_only_new none dto rows rows' u e h = (
  sym e,
  ground (arith, eq_refl (to_lower_case dto.id)),
  ground arith,
  ground arith,
  ground arith,
)

pub kept_by_insert :
    (old : Option User) (dto : CreateUserDto) (rows : Rows) (i : String) (u : User)
    → old ≡ row rows dto.id
    → row rows i ≡ some u
    → row (insert_if old dto rows).1 i ≡ some u
kept_by_insert (some old) dto rows i u e h = h
kept_by_insert none dto rows i u e h = elim (Bool-cases (to_lower_case dto.id == to_lower_case i)) [
  | inl same ↦ absurd (
      cc (
        e ∙ ap (λ k. row_at rows k) ((eq_iff (to_lower_case dto.id) (to_lower_case i)).0 same) ∙ h))
  | inr other ↦ rw other h
]

abbrev pub user_rows : UserTable
user_rows = record {
  Db = Rows;
  row = row;
  insert = λ dto rows. insert_if (row rows dto.id) dto rows;
  find = λ i rows. (ok (row rows i), rows);
  insert_row = λ dto rows rows' u h. found_only_new (row rows dto.id) dto rows rows' u refl h;
  insert_keeps = λ dto rows i u h. kept_by_insert (row rows dto.id) dto rows i u refl h;
  find_reads = λ i rows rows' found h. read_back rows rows' i found h;
  find_keeps = λ i rows j u h. h;
}
