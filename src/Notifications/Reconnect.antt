-- ===== src/Notifications/Reconnect.antt =====
-- `run` in consumer.service.ts: how long the consumer waits between its sessions with the broker. A
-- session is consumeUntilClosed: how long it lasted, and whether `stopping` is set at its end. The
-- wait itself ends early when the service stops.
pub mod Laws
use platform_engineering_lab.Prelude.{
  ℕ, ◌*◌, min, Bool, true, false, List, [], ◌∷◌, if◌then◌else◌, ltb,
}

pub record Round : Type 0 where
  pub lasted_ms : ℕ
  pub stopping : Bool

abbrev pub max_backoff_ms : ℕ
max_backoff_ms = 10000

-- Reset after a healthy stretch; otherwise grown up to the cap.
unfoldable pub next_delay : ℕ → ℕ → ℕ
next_delay delay lasted = if ltb 30000 lasted then 1000 else min (delay * 2) max_backoff_ms

-- The waits, from a delay on.
unfoldable pub waits_from : ℕ → List Round → List ℕ
waits_from delay [] = []
waits_from delay (r ∷ rs) =
    let next = next_delay delay r.lasted_ms in
    let rest = waits_from next rs in if r.stopping then [] else next ∷ rest

unfoldable pub waits : List Round → List ℕ
waits rounds = waits_from 1000 rounds
