-- ===== src/Notifications/Reconnect/Laws.antt =====
-- Bounds of the waits.
use platform_engineering_lab.Prelude.{ℕ, ◌≤◌, List, [], ◌∷◌, All, arith, Bool-cases, inl, inr}
use platform_engineering_lab.Notifications.Reconnect.{Round, next_delay, waits_from, waits}

next_delay-bounds :
    (delay lasted : ℕ)
    → 1000 ≤ delay
    → (1000 ≤ next_delay delay lasted) × (next_delay delay lasted ≤ 10000)
unfolding next_delay
next_delay-bounds delay lasted low = ground arith

waits_from-bounds :
    (delay : ℕ) (rs : List Round)
    → 1000 ≤ delay
    → All (λ d. (1000 ≤ d) × (d ≤ 10000)) (waits_from delay rs)
unfolding waits_from
waits_from-bounds delay [] low = tt
waits_from-bounds delay (r ∷ rs) low =
    let here = next_delay-bounds delay r.lasted_ms low in
    let rest = waits_from-bounds (next_delay delay r.lasted_ms) rs here.0 in
    elim (Bool-cases r.stopping) [ inl stop ↦ rw stop tt | inr go ↦ rw go (here, rest) ]

-- However the sessions go, the consumer waits at least a second and at most ten between two of them:
-- an outage of the broker neither makes it spin nor keeps it away.
pub waits-bounds : (rs : List Round) → All (λ d. (1000 ≤ d) × (d ≤ 10000)) (waits rs)
unfolding waits
waits-bounds rs = waits_from-bounds 1000 rs (omega arith)
