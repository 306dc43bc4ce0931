-- ===== src/Notifications/Listing/Laws.antt =====
-- Whose notifications a caller sees.
use platform_engineering_lab.Prelude.{
  ◌≡◌, refl, String, Bool, true, false, List, [], ◌∷◌, some, eq_iff, filter, All, arith,
  if◌then◌else◌,
}
use platform_engineering_lab.Js.Text.{to_lower_case}
use platform_engineering_lab.Auth.Verifier.{Principal}
use platform_engineering_lab.Auth.Ownership.{is_admin}
use platform_engineering_lab.Notifications.Listing.{Notification, selected, find_by_order, by_order}

abbrev Own : String → String → Notification → Type 0
Own user_id order_id n = (n.user_id ≡ to_lower_case user_id) × (n.order_id ≡ to_lower_case order_id)

All-kept :
    (P : Notification → Type 0) (b : Bool) (n : Notification) (rest : List Notification)
    → (b ≡ true → P n)
    → All P rest
    → All P (if b then n ∷ rest else rest)
All-kept P true n rest here there = (here refl, there)
All-kept P false n rest here there = there

selected-Own :
    (order_id user_id : String) (n : Notification)
    → selected order_id (some user_id) n ≡ true
    → Own user_id order_id n
selected-Own order_id user_id n h = (
  (eq_iff n.user_id (to_lower_case user_id)).0 (ground arith),
  (eq_iff n.order_id (to_lower_case order_id)).0 (ground arith),
)

filter-Own :
    (order_id user_id : String) (rows : List Notification)
    → All (Own user_id order_id) (filter (selected order_id (some user_id)) rows)
filter-Own order_id user_id [] = tt
filter-Own order_id user_id (n ∷ rows) =
    All-kept (Own user_id order_id) (selected order_id (some user_id) n) n
      (filter (selected order_id (some user_id)) rows) (selected-Own order_id user_id n)
      (filter-Own order_id user_id rows)

-- A caller who is no admin gets only notifications of the order that are their own.
pub by_order-own :
    (p : Principal) (order_id : String) (rows : List Notification)
    → is_admin p ≡ false
    → All
        (λ n. (n.user_id ≡ to_lower_case p.sub) × (n.order_id ≡ to_lower_case order_id))
        (by_order p order_id rows)
unfolding by_order find_by_order
by_order-own p order_id rows other = rw other (filter-Own order_id p.sub rows)
