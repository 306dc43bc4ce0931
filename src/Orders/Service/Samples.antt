-- ===== src/Orders/Service/Samples.antt =====
-- A store to run the service on: two association lists and the ids to come.
use platform_engineering_lab.Prelude.{
  refl, inl, inr, Option-cases, Bool-cases, eq_iff, ◌≡◌, sym, ap, ◌∙◌, String, true, false, List,
  [], ◌∷◌, Option, none, some, Result, ok, throw, ◌==◌, eq_refl, arith, if◌then◌else◌,
}
use platform_engineering_lab.Js.Text.{to_lower_case}
use platform_engineering_lab.Database.Errors.{JsError, nil, error}
use platform_engineering_lab.Orders.Types.{CreateOrderDto, Order}
use platform_engineering_lab.Orders.Store.{OrderStore}

pub record Tables : Type 0 where
  pub keys : List (String × String)
  pub orders : List (String × Order)
  pub ids : List String

abbrev pub assoc {ℓ} : {A : Type ℓ} → String → List (String × A) → Option A
assoc k [] = none
assoc k ((j, a) ∷ xs) = if j == k then some a else assoc k xs

abbrev pub key_row : Tables → String → Option String
key_row t k = assoc k t.keys

abbrev pub order_row : Tables → String → Option Order
order_row t i = assoc i t.orders

abbrev pub down : JsError
down = error false (some "ECONNREFUSED") none none nil nil

abbrev pub duplicate_key : JsError
duplicate_key = error true none none none (error false (some "23505") none none nil nil) nil

abbrev pub new_order : CreateOrderDto → String → String → Order
new_order dto status id = record {
  id = id;
  user_id = dto.user_id;
  amount = dto.amount;
  description = dto.description;
  status = status;
  created_at = 0;
}

-- An id that is there already violates the primary key.
abbrev pub save_as :
    CreateOrderDto
    → String
    → String
    → List String
    → Option Order
    → Tables
    → Result JsError Order × Tables
save_as dto status id ids (some old) t = (throw duplicate_key, t)
save_as dto status id ids none t = (
  ok (new_order dto status id),
  record t {
    orders =
        (id, record (new_order dto status id) { user_id = to_lower_case dto.user_id }) ∷ t.orders;
    ids = ids;
  },
)

abbrev pub save_next :
    CreateOrderDto → String → List String → Tables → Result JsError Order × Tables
save_next dto status [] t = (throw down, t)
save_next dto status (id ∷ ids) t = save_as dto status id ids (assoc id t.orders) t

abbrev pub insert_row :
    Option String → String → String → Tables → Result JsError (Unit {0}) × Tables
insert_row none k id t = (ok tt, record t { keys = (k, id) ∷ t.keys })
insert_row (some old) k id t = (throw duplicate_key, t)

abbrev pub commit : Tables → Result JsError Order × Tables → Result JsError Order × Tables
commit t (ok o, t') = (ok o, t')
commit t (throw e, t') = (throw e, t)

none-some : {A : Type 0} (a : A) → ◌≡◌ {A = Option A} none (some a) → ⊥
none-some a h = cc

taken :
    {A : Type 0} (row : String → Option A) (j i : String) (a : A)
    → j ≡ i
    → row j ≡ none
    → row i ≡ some a
    → ⊥
taken row j i a same fresh there = none-some a (sym fresh ∙ ap row same ∙ there)

pub read_back :
    {A : Type 0} (f : Tables → A) (t t' : Tables) (found : A)
    → ◌≡◌ {A = Result JsError A × Tables} (ok (f t), t) (ok found, t')
    → found ≡ f t'
read_back {A = A} f t t' found h =
    sym (ap (λ p. elim p.0 as (λ _. A) [ ok a ↦ a | throw e ↦ f t ]) h) ∙ ap (λ p. f p.1) h

saved_as :
    (dto : CreateOrderDto) (status id : String) (ids : List String) (old : Option Order)
    (t t' : Tables) (o : Order)
    → save_as dto status id ids old t ≡ (ok o, t')
    → (o.user_id ≡ dto.user_id)
      × (o.amount ≡ dto.amount)
      × (o.description ≡ dto.description)
      × (o.status ≡ status)
      × (order_row t' o.id ≡ some (record o { user_id = to_lower_case o.user_id }))
saved_as dto status id ids none t t' o h = ground (arith, eq_refl id)
saved_as dto status id ids (some old) t t' o h = cc

pub saved_fields :
    (dto : CreateOrderDto) (status : String) (ids : List String) (t t' : Tables) (o : Order)
    → save_next dto status ids t ≡ (ok o, t')
    → (o.user_id ≡ dto.user_id)
      × (o.amount ≡ dto.amount)
      × (o.description ≡ dto.description)
      × (o.status ≡ status)
      × (order_row t' o.id ≡ some (record o { user_id = to_lower_case o.user_id }))
saved_fields dto status [] t t' o h = cc
saved_fields dto status (id ∷ ids) t t' o h =
    saved_as dto status id ids (assoc id t.orders) t t' o h

pub inserted_row :
    (old : Option String) (k id : String) (t t' : Tables)
    → insert_row old k id t ≡ (ok tt, t')
    → (key_row t' k ≡ some id) × (t'.orders ≡ t.orders)
inserted_row none k id t t' h = ground (arith, eq_refl k)
inserted_row (some old) k id t t' h = cc

saved_as-keeps :
    (dto : CreateOrderDto) (status id : String) (ids : List String) (t : Tables) (i : String)
    (o : Order)
    → order_row t i ≡ some o
    → order_row (save_as dto status id ids (order_row t id) t).1 i ≡ some o
saved_as-keeps dto status id ids t i o row = elim (Option-cases (order_row t id)) [
  | inl fresh ↦ rw fresh (elim (Bool-cases (id == i)) [
    | inl same ↦ absurd (taken (order_row t) id i o ((eq_iff id i).0 same) fresh row)
    | inr other ↦ rw other row
  ])
  | inr (old, there) ↦ rw there row
]

pub saved-keeps :
    (dto : CreateOrderDto) (status : String) (ids : List String) (t : Tables) (i : String)
    (o : Order)
    → order_row t i ≡ some o
    → order_row (save_next dto status ids t).1 i ≡ some o
saved-keeps dto status [] t i o row = row
saved-keeps dto status (id ∷ ids) t i o row = saved_as-keeps dto status id ids t i o row

pub saved-keys :
    (dto : CreateOrderDto) (status : String) (ids : List String) (t : Tables)
    → (save_next dto status ids t).1.keys ≡ t.keys
saved-keys dto status [] t = refl
saved-keys dto status (id ∷ ids) t = elim (Option-cases (order_row t id)) [
  | inl fresh ↦ rw fresh refl
  | inr (old, there) ↦ rw there refl
]

pub inserted-keeps :
    (k id : String) (t : Tables) (j i : String)
    → key_row t j ≡ some i
    → key_row (insert_row (key_row t k) k id t).1 j ≡ some i
inserted-keeps k id t j i row = elim (Option-cases (key_row t k)) [
  | inl fresh ↦ rw fresh (elim (Bool-cases (k == j)) [
    | inl same ↦ absurd (taken (key_row t) k j i ((eq_iff k j).0 same) fresh row)
    | inr other ↦ rw other row
  ])
  | inr (old, there) ↦ rw there row
]

pub inserted-orders :
    (old : Option String) (k id : String) (t : Tables) → (insert_row old k id t).1.orders ≡ t.orders
inserted-orders none k id t = refl
inserted-orders (some old) k id t = refl

pub commit-keeps :
    {A : Type 0} (row : Tables → String → Option A) (t : Tables)
    (run : Result JsError Order × Tables) (i : String) (a : A)
    → row t i ≡ some a
    → row run.1 i ≡ some a
    → row (commit t run).1 i ≡ some a
commit-keeps row t (ok o, t') i a before after = after
commit-keeps row t (throw e, t') i a before after = before

pub commits :
    (t db' : Tables) (run : Result JsError Order × Tables) (o : Order)
    → commit t run ≡ (ok o, db')
    → run ≡ (ok o, db')
commits t db' (ok p, t') o h = h
commits t db' (throw e, t') o h = cc

abbrev pub tables_store : OrderStore
tables_store = record {
  Db = Tables;
  Tx = Tables;
  key_row = key_row;
  order_row = order_row;
  tx_key_row = key_row;
  tx_order_row = order_row;
  find_key = λ k t. (ok (key_row t k), t);
  find_order = λ i t. (ok (order_row t i), t);
  save = λ dto status t. save_next dto status t.ids t;
  insert_key = λ k id t. insert_row (key_row t k) k id t;
  transaction = λ body t. commit t (body t);
  find_key_reads = λ k db db' found h. read_back (λ t. key_row t k) db db' found h;
  find_order_reads = λ i db db' found h. read_back (λ t. order_row t i) db db' found h;
  find_key_keeps_keys = λ k db j id h. h;
  find_key_keeps_orders = λ k db i o h. h;
  find_order_keeps_keys = λ i db k id h. h;
  find_order_keeps_orders = λ k db i o h. h;
  save_fields = λ dto status tx tx' o h. saved_fields dto status tx.ids tx tx' o h;
  insert_key_row = λ k id tx tx' h. (inserted_row (key_row tx k) k id tx tx' h).0;
  save_keeps_keys = λ dto status tx k id row. rw (saved-keys dto status tx.ids tx) row;
  save_keeps_orders = λ dto status tx i o row. saved-keeps dto status tx.ids tx i o row;
  insert_key_keeps_keys = λ k id tx j i row. inserted-keeps k id tx j i row;
  insert_key_keeps_orders = λ k id tx i o row. rw (inserted-orders (key_row tx k) k id tx) row;
  transaction_keeps_keys =
      λ body keeps db k id row. commit-keeps key_row db (body db) k id row (keeps db k id row);
  transaction_keeps_orders =
      λ body keeps db i o row. commit-keeps order_row db (body db) i o row (keeps db i o row);
  committed =
      λ body db db' o h. (db, db', commits db db' (body db) o h, λ k id row. row, λ i p row. row);
}
