-- ===== src/Notifications/App/Laws.antt =====
-- Whose notifications a request gets.
use platform_engineering_lab.Prelude.{
  ℕ, ◌≡◌, ◌⊎◌, inl, inr, refl, sym, ap, String, true, List, Option, Result, ok, throw, All,
  Bool-cases,
}
use platform_engineering_lab.Effects.{◌>>=◌, pure, lift, bind-eq-ok}
use platform_engineering_lab.Js.Text.{to_lower_case}
use platform_engineering_lab.Auth.Verifier.{Principal}
use platform_engineering_lab.Auth.Guard.Laws.{IsAuthorized}
use platform_engineering_lab.Auth.Ownership.{is_admin}
use platform_engineering_lab.Database.Errors.{JsError}
use platform_engineering_lab.Pipeline.{replied, piped}
use platform_engineering_lab.Pipeline.Laws.{serve-replied, piped-ok}
use platform_engineering_lab.Notifications.Listing.{Notification, by_order}
use platform_engineering_lab.Notifications.Listing.Laws.{by_order-own}
use platform_engineering_lab.Notifications.App.{
  State, Deployment, notifications_route, selected_by, reject, outage, queried, shown_to,
  get_notifications,
}

-- Of this order, and the caller's own.
abbrev pub Own : Principal → String → Notification → Type 0
Own p order_id n = (n.user_id ≡ to_lower_case p.sub) × (n.order_id ≡ to_lower_case order_id)

selected_by-ok :
    (p : Principal) (id : String) (r : Result JsError (List Notification)) (ns : List Notification)
    → selected_by p id r ≡ ok ns
    → (rows : List Notification) × (ns ≡ by_order p id rows)
selected_by-ok p id (ok rows) ns h = (rows, cc)
selected_by-ok p id (throw e) ns h = absurd (cc)

module _ (d : Deployment) where
  shown_to-Own :
      (text : String) (p : Principal) (status : ℕ) (ns : List Notification) (w w' : State d.Db)
      → shown_to d text p w ≡ (ok (status, ns), w')
      → (id : String) × (d.parse_uuid_pipe text ≡ ok id) × ((is_admin p ≡ true) ⊎ All (Own p id) ns)
  unfolding shown_to
  shown_to-Own text p status ns w w' h =
      let (id, w₁, e, h₁) =
        bind-eq-ok (lift (piped (d.parse_uuid_pipe text)))
          (λ id. queried d p id >>= λ listed. pure (200, listed)) w h in
      let (listed, w₂, found, h₂) =
        bind-eq-ok (queried d p id) (λ listed. pure (200, listed)) w₁ h₁ in
      let (valid, _) = piped-ok (d.parse_uuid_pipe text) id w w₁ e in
      let whole : listed ≡ ns = cc in
      let (rows, all) = selected_by-ok p id (d.query w₁.db).0 listed (ap (λ x. x.0) found) in
      (
        id,
        valid,
        elim (Bool-cases (is_admin p)) [
          | inl admin ↦ inl admin
          | inr other ↦ inr (rw (sym whole, all) (by_order-own p id rows other))
        ],
      )

  -- A request that notification-worker answers with a list carries a token that verifies, of a customer
  -- or an admin; unless it is an admin's, each notification of the list is of the order that was asked
  -- for and of the caller.
  pub get_notifications-Own :
      (authorization : Option String) (text : String) (status : ℕ) (ns : List Notification)
      (w w' : State d.Db)
      → get_notifications d authorization text w ≡ (replied status ns, w')
      → (p : Principal) × IsAuthorized d.verify notifications_route authorization p
        × ((id : String) × (d.parse_uuid_pipe text ≡ ok id)
            × ((is_admin p ≡ true) ⊎ All (Own p id) ns))
  unfolding get_notifications
  get_notifications-Own authorization text status ns w w' h =
      let (p, served, ran) =
        serve-replied (reject d) (outage d) d.verify notifications_route authorization
          (shown_to d text) refl status ns w w' h in
      (p, served, shown_to-Own text p status ns w w' ran)
