-- ===== src/Migrations.antt =====
-- migrations/1700000000000-create-*.ts of order-service, notification-worker and user-service: the
-- statements of `up` and `down`. What PostgreSQL makes of them is Migrations.Schema.
pub mod Schema
pub mod Laws
mod Tests
use platform_engineering_lab.Prelude.{
  ℕ, String, Bool, true, false, List, [], ◌∷◌, Option, none, some,
}
use platform_engineering_lab.Migrations.Schema.{
  SqlType, uuid, varchar, numeric, timestamp, Column, Table, Statement, create_table, create_index,
  drop_table,
}

pub record Migration : Type 0 where
  pub up : List Statement
  pub down : List Statement

abbrev pub id_column : Column
id_column = record {
  name = "id";
  kind = uuid;
  is_key = true;
  not_null = true;
  unique = true;
  default = some "gen_random_uuid()";
  check = none;
  references = none;
}

-- NOT NULL, and no more.
abbrev pub required : String → SqlType → Column
required name kind = record {
  name = name;
  kind = kind;
  is_key = false;
  not_null = true;
  unique = false;
  default = none;
  check = none;
  references = none;
}

abbrev pub created_at : Column
created_at = record (required "created_at" timestamp) { default = some "now()" }

abbrev pub orders_table : Table
orders_table = record {
  name = "orders";
  columns =
      id_column
      ∷ required "user_id" uuid
      ∷ record (required "amount" (numeric 12 2)) { check = some "amount > 0" }
      ∷ required "description" (varchar none)
      ∷ record (required "status" (varchar none)) { default = some "'CREATED'" }
      ∷ created_at
      ∷ [];
}

abbrev pub key_column : Column
key_column = record (required "key" (varchar (some 200))) { is_key = true; unique = true }

abbrev pub keys_table : Table
keys_table = record {
  name = "idempotency_keys";
  columns =
      key_column
      ∷ record (required "order_id" uuid) { references = some "orders" }
      ∷ created_at
      ∷ [];
}

unfoldable pub create_orders : Migration
create_orders = record {
  up = create_table orders_table ∷ create_table keys_table ∷ [];
  down = drop_table "idempotency_keys" ∷ drop_table "orders" ∷ [];
}

abbrev pub notifications_table : Table
notifications_table = record {
  name = "notifications";
  columns =
      id_column
      ∷ record (required "event_id" uuid) { unique = true }
      ∷ required "order_id" uuid
      ∷ required "user_id" uuid
      ∷ created_at
      ∷ [];
}

unfoldable pub create_notifications : Migration
create_notifications = record {
  up =
      create_table notifications_table
      ∷ create_index "notifications_order_id_idx" "notifications" "order_id"
      ∷ [];
  down = drop_table "notifications" ∷ [];
}

abbrev pub users_table : Table
users_table = record {
  name = "users";
  columns =
      id_column
      ∷ record (required "email" (varchar none)) { unique = true }
      ∷ required "name" (varchar none)
      ∷ created_at
      ∷ [];
}

unfoldable pub create_users : Migration
create_users = record { up = create_table users_table ∷ []; down = drop_table "users" ∷ [] }
