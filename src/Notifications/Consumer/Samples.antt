-- ===== src/Notifications/Consumer/Samples.antt =====
-- A table, a parser and messages to run the consumer on. The table keeps the stored rows and a
-- schedule of the failures to come.
use native.Mathlib.Nat.{le_refl}
use platform_engineering_lab.Prelude.{
  ℕ, ◌≤◌, ◌≡◌, ◌≢◌, refl, String, Bool, true, false, List, [], ◌∷◌, Option, none, some, ◌==◌,
  eq_iff, eq_refl, arith, if◌then◌else◌, any,
}
use platform_engineering_lab.Js.Json.{Json, string, object, end, field}
use platform_engineering_lab.Notifications.Event.{OrderCreatedEvent}
use platform_engineering_lab.Notifications.Table.{
  NotificationTable, Inserted, Row, as_uuids, returned, failed,
}
use platform_engineering_lab.Notifications.Broker.{
  HeaderValue, deaths, Delivery, set_header, main_queue, or_empty, Channel, confirm, time_out,
}
use platform_engineering_lab.Notifications.Broker.Laws.{get_header-set_header}
use platform_engineering_lab.Notifications.Consumer.Redelivery.{
  Redelivery, retry_queue, deaths_of, dead_lettered_from,
}

pub record Rows : Type 0 where
  pub stored : List Row
  pub failures : List Bool

abbrev pub holds : String → List Row → Bool
holds k = any (λ r. r.event_id == k)

abbrev pub find_row : String → List Row → Option Row
find_row k [] = none
find_row k (r ∷ rs) = let rest = find_row k rs in if r.event_id == k then some r else rest

abbrev pub bit : Bool → ℕ
bit true = 1
bit false = 0

abbrev pub row_count : String → Rows → ℕ
row_count k db = bit (holds k db.stored)

abbrev pub row_at : String → Rows → Option Row
row_at k db = find_row k db.stored

-- The row is as it is stored.
abbrev pub insert_row : Row → List Row → List Bool → Inserted × Rows
insert_row r rs (true ∷ fs) =
    (failed "connection terminated", record { stored = rs; failures = fs })
insert_row r rs (false ∷ fs) =
    if holds r.event_id rs
    then (returned [], record { stored = rs; failures = fs })
    else (returned ("id" ∷ []), record { stored = r ∷ rs; failures = fs })
insert_row r rs [] =
    if holds r.event_id rs
    then (returned [], record { stored = rs; failures = [] })
    else (returned ("id" ∷ []), record { stored = r ∷ rs; failures = [] })

abbrev pub insert : Row → Rows → Inserted × Rows
insert r db = insert_row (as_uuids r) db.stored db.failures

pub one_at_most : (k : String) (db : Rows) → row_count k db ≤ 1
one_at_most k db = ground arith

pub new_row :
    (r : Row) (rs : List Row) (fs : List Bool) (db' : Rows) (id : String) (more : List String)
    → insert_row r rs fs ≡ (returned (id ∷ more), db')
    → (bit (holds r.event_id rs) ≡ 0)
      × (row_count r.event_id db' ≡ 1)
      × (row_at r.event_id db' ≡ some r)
new_row r rs [] db' id more h = ground (arith, eq_refl r.event_id)
new_row r rs (true ∷ fs) db' id more h = ground arith
new_row r rs (false ∷ fs) db' id more h = ground (arith, eq_refl r.event_id)

pub old_row :
    (r : Row) (rs : List Row) (fs : List Bool) (db' : Rows)
    → insert_row r rs fs ≡ (returned [], db')
    → (bit (holds r.event_id rs) ≡ 1) × (row_count r.event_id db' ≡ 1)
old_row r rs [] db' h = ground arith
old_row r rs (true ∷ fs) db' h = ground arith
old_row r rs (false ∷ fs) db' h = ground arith

pub kept_count :
    (r : Row) (j : String) (rs : List Row) (fs : List Bool)
    → bit (holds j rs) ≤ row_count j (insert_row r rs fs).1
kept_count r j rs [] = ground arith
kept_count r j rs (true ∷ fs) = ground arith
kept_count r j rs (false ∷ fs) = ground arith

find_row-held : (k : String) (rs : List Row) (x : Row) → find_row k rs ≡ some x → holds k rs ≡ true
find_row-held k [] x h = cc
find_row-held k (r ∷ rs) x h = ground (arith, find_row-held k rs x)

pub kept_row :
    (r x : Row) (j : String) (rs : List Row) (fs : List Bool)
    → find_row j rs ≡ some x
    → row_at j (insert_row r rs fs).1 ≡ some x
kept_row r x j rs [] h = ground (arith, find_row-held j rs x h, eq_iff r.event_id j)
kept_row r x j rs (true ∷ fs) h = h
kept_row r x j rs (false ∷ fs) h = ground (arith, find_row-held j rs x h, eq_iff r.event_id j)

pub other_row :
    (r : Row) (j : String) (rs : List Row) (fs : List Bool)
    → j ≢ r.event_id
    → row_count j (insert_row r rs fs).1 ≡ bit (holds j rs)
other_row r j rs [] h = ground (arith, eq_iff r.event_id j)
other_row r j rs (true ∷ fs) h = ground arith
other_row r j rs (false ∷ fs) h = ground (arith, eq_iff r.event_id j)

abbrev pub rows_table : NotificationTable
rows_table = record {
  Db = Rows;
  insert = insert;
  rows = row_count;
  row = row_at;
  unique = one_at_most;
  insert_returned = λ r db db' id ids h. new_row (as_uuids r) db.stored db.failures db' id ids h;
  insert_conflict = λ r db db' h. old_row (as_uuids r) db.stored db.failures db' h;
  insert_keeps = λ r db k. kept_count (as_uuids r) k db.stored db.failures;
  insert_keeps_row = λ r x db k h. kept_row (as_uuids r) x k db.stored db.failures h;
  insert_others = λ r db k h. other_row (as_uuids r) k db.stored db.failures h;
}

-- The broker as it is documented.
abbrev pub reject_once : Delivery → Delivery
reject_once msg = record msg {
  headers = some (
      set_header "x-death"
        (deaths (
          dead_lettered_from retry_queue "expired"
            (dead_lettered_from main_queue "rejected" (deaths_of msg))))
        (or_empty msg.headers));
}

pub reject_once-deaths :
    (msg : Delivery)
    → deaths_of (reject_once msg)
      ≡ dead_lettered_from retry_queue "expired"
          (dead_lettered_from main_queue "rejected" (deaths_of msg))
reject_once-deaths msg = rw get_header-set_header refl

abbrev pub rejecting : Redelivery
rejecting = record {
  redeliver = reject_once;
  same_content = λ msg. refl;
  death_record = reject_once-deaths;
}

-- The contents "order" and "noise", the first with a body that meets the contract.
abbrev pub body : Json
body = object (
    field "type" (string "order.created") (
      field "eventId" (string "3fa85F64-5717-4562-b3fc-2c963f66afa6") (
        field "data"
          (object (
            field "orderId" (string "00000000-0000-4000-8000-000000000001")
              (field "userId" (string "00000000-0000-4000-8000-000000000002") end)))
          end)))

abbrev pub parse : String → Option Json
parse content = if content == "order" then some body else none

abbrev pub event : OrderCreatedEvent
event = record {
  event_id = "3fa85F64-5717-4562-b3fc-2c963f66afa6";
  correlation_id = "unknown";
  order_id = "00000000-0000-4000-8000-000000000001";
  user_id = "00000000-0000-4000-8000-000000000002";
}

abbrev pub message : String → Delivery
message content = record {
  content = content;
  content_type = none;
  message_id = some "m-1";
  correlation_id = none;
  headers = some (("x-trace", HeaderValue.value "t") ∷ []);
}

abbrev pub open_channel : Channel
open_channel = record { open_at = λ n. true; answer = confirm }

abbrev pub silent_channel : Channel
silent_channel = record { open_at = λ n. true; answer = time_out }

abbrev pub closed_channel : Channel
closed_channel = record { open_at = λ n. false; answer = confirm }

abbrev pub empty_rows : List Bool → Rows
empty_rows failures = record { stored = []; failures = failures }

pub never_returns :
    {m : String} {ids : List String} {a b : Rows}
    → ◌≡◌ {A = Inserted × Rows} (failed m, a) (returned ids, b)
    → ⊥
never_returns h = cc

-- The table of a database that never answers.
abbrev pub down_table : NotificationTable
down_table = record {
  Db = Rows;
  insert = λ e db. (failed "down", db);
  rows = row_count;
  row = row_at;
  unique = one_at_most;
  insert_returned = λ e db db' id ids h. absurd (never_returns h);
  insert_conflict = λ e db db' h. absurd (never_returns h);
  insert_keeps = λ e db k. le_refl (row_count k db);
  insert_keeps_row = λ e x db k h. h;
  insert_others = λ e db k h. refl;
}
