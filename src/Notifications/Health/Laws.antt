-- ===== src/Notifications/Health/Laws.antt =====
-- What readiness says of the worker.
use platform_engineering_lab.Prelude.{ℕ, ◌≡◌, Bool, true, false, List, [], ◌∷◌, some, All}
use platform_engineering_lab.Notifications.Session.{Consumer, is_connected, Reachable, serving}
use platform_engineering_lab.Notifications.Session.Laws.{is_connected-serving}
use platform_engineering_lab.Notifications.Health.{ready}

-- The worker answers 200 only where the database answers and a consumer is registered, as terminus
-- answers 200 only if every indicator is up.
pub ready-serving :
    (check : List Bool → ℕ) (ping : Bool) (s : Consumer)
    → ((bs : List Bool) → check bs ≡ 200 → All (λ b. b ≡ true) bs)
    → Reachable s
    → ready check ping s ≡ 200
    → (ping ≡ true) × ((c : ℕ) × (s.phase ≡ serving c) × (s.conn ≡ some c)) × (s.stopping ≡ false)
unfolding ready
ready-serving check ping s strict r h =
    let (answers, up) = strict (ping ∷ is_connected s ∷ []) h in
    let (serves, going) = is_connected-serving s r up.0 in (answers, serves, going)
