-- ===== src/Migrations/Laws.antt =====
-- What the migrations leave, and that they are undone.
use platform_engineering_lab.Prelude.{
  ◌≤◌, ◌≡◌, String, true, false, ◌∷◌, none, some, not, ◌==◌, any, filter, ◌≢◌, ◌↔◌, eq_iff, arith,
  Bool-cases, inl, inr,
}
use platform_engineering_lab.Js.Uuid.{is_uuid}
use platform_engineering_lab.Orders.Controller.{is_bad_key, text_length}
use platform_engineering_lab.Migrations.Schema.{
  SqlType, uuid, timestamp, varchar, numeric, Schema, Index, has_table, is_referenced, execute, run,
}
use platform_engineering_lab.Migrations.{
  Migration, create_orders, create_notifications, create_users, users_table, notifications_table,
  orders_table, keys_table, key_column,
}

-- The schema has no table of this name, nothing that refers to one, and no index on it.
pub record IsFree (n : String) (s : Schema) : Type 0 where
  pub absent : has_table n s.tables ≡ false
  pub unreferenced : is_referenced n s.tables ≡ false
  pub unindexed : filter (λ x. not (x.table == n)) s.indexes ≡ s.indexes

abbrev notifications_index : Index
notifications_index = record {
  name = "notifications_order_id_idx";
  table = "notifications";
  column = "order_id";
}

-- `up` succeeds, and `down` leads back.
abbrev pub IsUndone : Migration → Schema → Type 0
IsUndone m s = (s' : Schema) × (run m.up s ≡ some s') × (run m.down s' ≡ some s)

pub create_users-IsUndone : (s : Schema) → IsFree "users" s → IsUndone create_users s
unfolding run execute create_users
create_users-IsUndone s free = (
  record s { tables = users_table ∷ s.tables },
  ground (arith, free.absent),
  ground (arith, free.unreferenced, free.unindexed),
)

pub create_notifications-IsUndone :
    (s : Schema)
    → IsFree "notifications" s
    → any (λ x. x.name == "notifications_order_id_idx") s.indexes ≡ false
    → IsUndone create_notifications s
unfolding run execute create_notifications
create_notifications-IsUndone s free fresh = (
  record { tables = notifications_table ∷ s.tables; indexes = notifications_index ∷ s.indexes },
  ground (arith, free.absent, fresh),
  ground (arith, free.unreferenced, free.unindexed),
)

-- The migration of order-service applies to every schema without its two tables, and its `down` leads
-- back to that schema.
pub create_orders-IsUndone :
    (s : Schema) → IsFree "orders" s → IsFree "idempotency_keys" s → IsUndone create_orders s
unfolding run execute create_orders
create_orders-IsUndone s orders keys = (
  record s { tables = keys_table ∷ orders_table ∷ s.tables },
  ground (arith, orders.absent, keys.absent),
  ground (arith, orders.unreferenced, orders.unindexed, keys.unreferenced, keys.unindexed),
)

-- The column takes the text.
abbrev pub Holds : SqlType → String → Type 0
Holds uuid text = is_uuid text ≡ true
Holds timestamp text = ⊥
Holds (varchar none) text = Unit
Holds (varchar (some limit)) text = text_length text ≤ limit
Holds (numeric precision scale) text = ⊥

-- The keys that the controller lets through are those that are not empty and that the column of the
-- migration holds.
pub key-Holds : (k : String) → (is_bad_key (some k) ≡ false) ↔ ((k ≢ "") × Holds key_column.kind k)
unfolding is_bad_key
key-Holds k = elim (Bool-cases (k == "")) [
  | inl blank ↦
      (λ h. absurd (ground arith), λ (given, fits). absurd (given ((eq_iff k "").0 blank)))
  | inr ink ↦ (
    λ h. (λ e. absurd (cc ((eq_iff k "").1 e, ink)), ground arith),
    λ (given, fits). ground (arith, fits),
  )
]
