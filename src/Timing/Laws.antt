-- ===== src/Timing/Laws.antt =====
-- What the timers bound.
use platform_engineering_lab.Prelude.{
  ℕ, ◌≤◌, ◌≡◌, ◌⊎◌, inl, inr, refl, String, none, some, ok, throw, ltb, arith, Bool-cases,
}
use platform_engineering_lab.Timing.{
  Pending, never, fulfils, rejects, with_timeout, connect_timeout_ms, Connecting,
  connect_with_timeout,
}

pub with_timeout_bound : (p : Pending (Unit {0})) (ms : ℕ) → (with_timeout p ms).0 ≤ ms
unfolding with_timeout
with_timeout_bound never ms = omega arith
with_timeout_bound (fulfils t done) ms = elim (Bool-cases (ltb ms t)) [
  | inl late ↦ rw late (omega arith)
  | inr soon ↦ rw soon (ground (arith, soon))
]
with_timeout_bound (rejects t message) ms = elim (Bool-cases (ltb ms t)) [
  | inl late ↦ rw late (omega arith)
  | inr soon ↦ rw soon (ground (arith, soon))
]

-- The connection that the attempt opens is returned, or is closed.
abbrev pub Accounts : Pending ℕ → Connecting → Type 0
Accounts never r = ((m : String) × (r.result ≡ throw m)) × (r.closed_late ≡ none)
Accounts (fulfils t conn) r =
    ((r.result ≡ ok conn) × (r.closed_late ≡ none))
    ⊎ (((m : String) × (r.result ≡ throw m)) × (r.closed_late ≡ some conn))
Accounts (rejects t message) r = ((m : String) × (r.result ≡ throw m)) × (r.closed_late ≡ none)

-- However long an attempt to connect takes, the caller waits at most 2000 ms for it; and a connection
-- that it opens, be it long after, is either returned or closed, never both and never neither.
pub connect_with_timeout-Accounts :
    (attempt : Pending ℕ)
    → ((connect_with_timeout attempt).waited ≤ 2000)
      × Accounts attempt (connect_with_timeout attempt)
unfolding connect_with_timeout
connect_with_timeout-Accounts never =
    (omega arith, (("connect ETIMEDOUT (outer bound)", refl), refl))
connect_with_timeout-Accounts (fulfils t conn) = elim (Bool-cases (ltb connect_timeout_ms t)) [
  | inl late ↦ rw late (omega arith, inr (("connect ETIMEDOUT (outer bound)", refl), refl))
  | inr soon ↦ rw soon (ground (arith, soon), inl (refl, refl))
]
connect_with_timeout-Accounts (rejects t message) = elim (Bool-cases (ltb connect_timeout_ms t)) [
  | inl late ↦ rw late (omega arith, (("connect ETIMEDOUT (outer bound)", refl), refl))
  | inr soon ↦ rw soon (ground (arith, soon), ((message, refl), refl))
]
