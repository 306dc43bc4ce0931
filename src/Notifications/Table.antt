-- ===== src/Notifications/Table.antt =====
-- notifications.service.ts: `record`, over the table of migrations/1700000000000-create-notifications.ts.
-- The database is not part of the repository: its state and its one statement are a parameter, with
-- what PostgreSQL documents of `INSERT … ON CONFLICT (event_id) DO NOTHING RETURNING id` under a
-- UNIQUE constraint. A failed call may or may not have stored its row before the connection broke.
use platform_engineering_lab.Prelude.{
  ℕ, ◌≡◌, ◌≢◌, ◌≤◌, String, List, [], ◌∷◌, Option, some, Bool, true, false, Result, ok, throw, refl,
}
use platform_engineering_lab.Js.Text.{to_lower_case}
use platform_engineering_lab.Notifications.Event.{OrderCreatedEvent}

-- The rows that the statement returns, or the message of the error that the driver throws.
pub data Inserted : Type 0 where
  returned : List String → Inserted
  failed : String → Inserted

-- The column event_id has the type UUID, which compares without regard to case.
abbrev pub key : OrderCreatedEvent → String
key event = to_lower_case event.event_id

-- The columns that the statement names, each with its parameter; the others have defaults.
pub record Row : Type 0 where
  pub event_id : String
  pub order_id : String
  pub user_id : String

-- A row as it is read back: its columns have the type UUID.
abbrev pub as_uuids : Row → Row
as_uuids r = record {
  event_id = to_lower_case r.event_id;
  order_id = to_lower_case r.order_id;
  user_id = to_lower_case r.user_id;
}

pub record NotificationTable : Type 1 where
  pub Db : Type 0
  pub insert : Row → Db → Inserted × Db
  -- how many rows have this event_id, and the row
  pub rows : String → Db → ℕ
  pub row : String → Db → Option Row
  pub unique : (k : String) (db : Db) → rows k db ≤ 1
  pub insert_returned :
      (r : Row) (db db' : Db) (id : String) (ids : List String)
      → insert r db ≡ (returned (id ∷ ids), db')
      → (rows (to_lower_case r.event_id) db ≡ 0)
        × (rows (to_lower_case r.event_id) db' ≡ 1)
        × (row (to_lower_case r.event_id) db' ≡ some (as_uuids r))
  pub insert_conflict :
      (r : Row) (db db' : Db)
      → insert r db ≡ (returned [], db')
      → (rows (to_lower_case r.event_id) db ≡ 1) × (rows (to_lower_case r.event_id) db' ≡ 1)
  pub insert_keeps : (r : Row) (db : Db) (k : String) → rows k db ≤ rows k (insert r db).1
  pub insert_keeps_row :
      (r x : Row) (db : Db) (k : String) → row k db ≡ some x → row k (insert r db).1 ≡ some x
  pub insert_others :
      (r : Row) (db : Db) (k : String)
      → k ≢ to_lower_case r.event_id
      → rows k (insert r db).1 ≡ rows k db

-- The statement of record(event) and its parameters.
abbrev pub row_of : OrderCreatedEvent → Row
row_of event = record {
  event_id = event.event_id;
  order_id = event.order_id;
  user_id = event.user_id;
}

-- `rows.length === 0` is a duplicate.
abbrev pub is_new : Inserted → Result String Bool
is_new (returned []) = ok false
is_new (returned (id ∷ ids)) = ok true
is_new (failed message) = throw message

module _ (t : NotificationTable) where
  -- record(event)
  unfoldable pub record_event : OrderCreatedEvent → t.Db → Result String Bool × t.Db
  record_event event db = let (inserted, db') = t.insert (row_of event) db in (is_new inserted, db')

-- A call that returns, for a new event or for a duplicate, leaves exactly one row of the event.
module _ (t : NotificationTable) (event : OrderCreatedEvent) (db : t.Db) where
  stored_of :
      (inserted : Inserted) (db' : t.Db) (b : Bool)
      → t.insert (row_of event) db ≡ (inserted, db')
      → is_new inserted ≡ ok b
      → t.rows (key event) db' ≡ 1
  stored_of (returned []) db' b e n = (t.insert_conflict (row_of event) db db' e).1
  stored_of (returned (id ∷ ids)) db' b e n = (t.insert_returned (row_of event) db db' id ids e).1
  stored_of (failed message) db' b e n = cc

  pub record_event-stored :
      (b : Bool)
      → (record_event t event db).0 ≡ ok b
      → t.rows (key event) (record_event t event db).1 ≡ 1
  unfolding record_event
  record_event-stored b h =
      stored_of (t.insert (row_of event) db).0 (t.insert (row_of event) db).1 b refl h

  new_of :
      (inserted : Inserted) (db' : t.Db)
      → t.insert (row_of event) db ≡ (inserted, db')
      → is_new inserted ≡ ok true
      → (t.rows (key event) db ≡ 0)
        × (t.rows (key event) db' ≡ 1)
        × (t.row (key event) db' ≡ some (as_uuids (row_of event)))
  new_of (returned []) db' e n = cc
  new_of (returned (id ∷ ids)) db' e n = t.insert_returned (row_of event) db db' id ids e
  new_of (failed message) db' e n = cc

  pub record_event-new :
      (record_event t event db).0 ≡ ok true
      → (t.rows (key event) db ≡ 0)
        × (t.rows (key event) (record_event t event db).1 ≡ 1)
        × (t.row (key event) (record_event t event db).1 ≡ some (as_uuids (row_of event)))
  unfolding record_event
  record_event-new h = new_of (t.insert (row_of event) db).0 (t.insert (row_of event) db).1 refl h

  pub record_event-keeps : (k : String) → t.rows k db ≤ t.rows k (record_event t event db).1
  unfolding record_event
  record_event-keeps k = t.insert_keeps (row_of event) db k

  pub record_event-keeps_row :
      (k : String) (x : Row) → t.row k db ≡ some x → t.row k (record_event t event db).1 ≡ some x
  unfolding record_event
  record_event-keeps_row k x h = t.insert_keeps_row (row_of event) x db k h
