-- ===== src/Migrations/Tests.antt =====
-- A database from nothing to its tables and back.
use platform_engineering_lab.Prelude.{◌≡◌, refl, [], ◌∷◌, none}
use platform_engineering_lab.Migrations.Schema.{Schema, drop_table, execute}
use platform_engineering_lab.Migrations.{create_orders, orders_table, keys_table}
use platform_engineering_lab.Migrations.Laws.{IsUndone, create_orders-IsUndone}

abbrev empty : Schema
empty = record { tables = []; indexes = [] }

abbrev migrated : Schema
migrated = record { tables = keys_table ∷ orders_table ∷ []; indexes = [] }

-- The table of the keys refers to the orders, so that they cannot be dropped first.
orders_held : execute (drop_table "orders") migrated ≡ none
unfolding execute
orders_held = refl

create_orders-IsUndone_example : IsUndone create_orders empty
create_orders-IsUndone_example =
    create_orders-IsUndone empty (record { absent = refl; unreferenced = refl; unindexed = refl })
      (record { absent = refl; unreferenced = refl; unindexed = refl })
