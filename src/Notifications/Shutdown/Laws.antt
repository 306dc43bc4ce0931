-- ===== src/Notifications/Shutdown/Laws.antt =====
-- How long the shutdown takes.
use platform_engineering_lab.Prelude.{
  ℕ, ◌+◌, ◌≤◌, ◌≡◌, ◌⊎◌, inl, inr, refl, ap, max, min, String, Bool, true, List, [], ◌∷◌, Option,
  none, some, Result, ok, throw, All, arith, ltb, Bool-cases, Option-cases,
}
use platform_engineering_lab.Effects.{◌>>◌, catch}
use platform_engineering_lab.Timing.{Pending, never, fulfils, rejects, with_timeout}
use platform_engineering_lab.Timing.Laws.{with_timeout_bound}
use platform_engineering_lab.Telemetry.{shutdown_telemetry, flush_time}
use platform_engineering_lab.Telemetry.Laws.{shutdown_telemetry_bound}
use platform_engineering_lab.Notifications.Shutdown.{
  Surroundings, Warning, cancel_failed, close_failed, Clock, Timed, wait, warn, await_if, later_of,
  all_settled, up_to, drain_time, drain_timeout_ms, cancel_timeout_ms, close_timeout_ms,
  loop_timeout_ms, on_module_destroy, shut_down, at_signal,
}

-- The call takes at most `ms`, whatever it comes to.
abbrev Within : {A : Type 0} → ℕ → Timed A → Type 0
Within ms m = (s : Clock) → (m s).1.now ≤ s.now + ms

await_if-Within : (p : Option (Pending (Unit {0}))) (ms : ℕ) → Within ms (await_if p ms)
unfolding await_if
await_if-Within none ms s = omega arith
await_if-Within (some p) ms s = omega (arith, with_timeout_bound p ms)

settled-Within :
    (r : Result String (Unit {0}) × Clock) (w : String → Warning) (start ms : ℕ)
    → r.1.now ≤ start + ms
    → (elim r.0 as (λ _. Result String (Unit {0}) × Clock) [
      | ok a ↦ (ok a, r.1)
      | throw e ↦ warn (w e) r.1
    ]).1.now
      ≤ start + ms
settled-Within (ok a, s) w start ms h = h
settled-Within (throw e, s) w start ms h = h

guarded-Within :
    (p : Option (Pending (Unit {0}))) (ms : ℕ) (w : String → Warning)
    → Within ms (catch (await_if p ms) (λ m. warn (w m)))
guarded-Within p ms w s = settled-Within (await_if p ms s) w s.now ms (await_if-Within p ms s)

bound-Within :
    {A : Type 0} (r : Result String (Unit {0}) × Clock) (k : Timed A) (start first second : ℕ)
    → r.1.now ≤ start + first
    → Within second k
    → (elim r.0 as (λ _. Result String A × Clock) [ ok a ↦ k r.1 | throw e ↦ (throw e, r.1) ]).1.now
      ≤ start + (first + second)
bound-Within (ok a, s) k start first second h hk = omega (arith, h, hk s)
bound-Within (throw e, s) k start first second h hk = omega (arith, h)

then-Within :
    {A : Type 0} (m : Timed (Unit {0})) (k : Timed A) (first second : ℕ)
    → Within first m
    → Within second k
    → Within (first + second) (m >> k)
then-Within m k first second hm hk s = bound-Within (m s) k s.now first second (hm s) hk

wait-Within : (t ms : ℕ) → t ≤ ms → Within ms (wait t)
wait-Within t ms h s = omega (arith, h)

up_to_bound : (ms : ℕ) (t : Option ℕ) → up_to ms t ≤ ms
up_to_bound ms none = omega arith
up_to_bound ms (some t) = omega arith

drain_time_bound : (ts : List (Option ℕ)) → drain_time ts ≤ drain_timeout_ms
unfolding drain_time
drain_time_bound ts = up_to_bound drain_timeout_ms (all_settled ts)

on_module_destroy-Within : (env : Surroundings) → Within 8000 (on_module_destroy env)
unfolding on_module_destroy
on_module_destroy-Within env =
    let cancelling : Timed (Unit {0}) =
      catch (await_if env.cancel cancel_timeout_ms) (λ m. warn (cancel_failed m)) in
    let draining : Timed (Unit {0}) = wait (drain_time env.in_flight) in
    let closing : Timed (Unit {0}) =
      catch (await_if env.close close_timeout_ms) (λ m. warn (close_failed m)) in
    let ending : Timed (Unit {0}) = await_if env.loop loop_timeout_ms in
    then-Within cancelling (draining >> (closing >> ending)) 1000 7000
      (guarded-Within env.cancel cancel_timeout_ms (λ m. cancel_failed m))
      (then-Within draining (closing >> ending) 5000 2000
        (wait-Within (drain_time env.in_flight) 5000 (drain_time_bound env.in_flight))
        (then-Within closing ending 1000 1000
          (guarded-Within env.close close_timeout_ms (λ m. close_failed m))
          (await_if-Within env.loop loop_timeout_ms)))

shut_down-Within :
    (env : Surroundings) (sdk : Bool) (flush : Pending (Unit {0}))
    → Within 10000 (shut_down env sdk flush)
unfolding shut_down
shut_down-Within env sdk flush =
    then-Within (on_module_destroy env) (wait (shutdown_telemetry sdk flush)) 8000 2000
      (on_module_destroy-Within env)
      (wait-Within (shutdown_telemetry sdk flush) 2000 (shutdown_telemetry_bound sdk flush))

-- A broker and a collector that never answer, and a message that is never done.
abbrev stuck : Surroundings
stuck = record { cancel = some never; in_flight = none ∷ []; close = some never; loop = some never }

stuck-time : (shut_down stuck true never at_signal).1.now ≡ 10000
unfolding shut_down on_module_destroy await_if with_timeout drain_time shutdown_telemetry flush_time
stuck-time = refl

-- The shutdown takes at most 10000 ms, whatever the broker, the messages in flight and the collector
-- do; and there is a case in which it takes all of them, Docker's whole grace period.
pub shut_down-grace :
    ((env : Surroundings) (sdk : Bool) (flush : Pending (Unit {0}))
      → (shut_down env sdk flush at_signal).1.now ≤ 10000)
    × ((env : Surroundings) × (sdk : Bool) × (flush : Pending (Unit {0})) × ((shut_down env sdk
            flush at_signal).1.now
          ≡ 10000))
shut_down-grace =
    (λ env sdk flush. shut_down-Within env sdk flush at_signal, (stuck, true, never, stuck-time))

-- The message is done within `ms`.
abbrev pub DoneBy : ℕ → Option ℕ → Type 0
DoneBy ms none = ⊥
DoneBy ms (some t) = t ≤ ms

weaken :
    (ms more : ℕ) (ts : List (Option ℕ)) → ms ≤ more → All (DoneBy ms) ts → All (DoneBy more) ts
weaken ms more [] h hs = tt
weaken ms more (none ∷ ts) h (d, hs) = absurd d
weaken ms more (some t ∷ ts) h (d, hs) = (omega (arith, d, h), weaken ms more ts h hs)

settled-DoneBy : (ts : List (Option ℕ)) (ms : ℕ) → all_settled ts ≡ some ms → All (DoneBy ms) ts
settled-DoneBy [] ms h = tt
settled-DoneBy (none ∷ ts) ms h = absurd (cc)
settled-DoneBy (some t ∷ ts) ms h = elim (Option-cases (all_settled ts)) [
  | inl open_end ↦ absurd (ground (arith, h, open_end))
  | inr (u, e) ↦
      let last : max t u ≡ ms = ground (arith, h, e) in
      (omega (arith, last), weaken u ms ts (omega (arith, last)) (settled-DoneBy ts u e))
]

DoneBy-settled :
    (ts : List (Option ℕ)) (ms : ℕ)
    → All (DoneBy ms) ts
    → (last : ℕ) × (all_settled ts ≡ some last) × (last ≤ ms)
DoneBy-settled [] ms hs = (0, refl, omega arith)
DoneBy-settled (none ∷ ts) ms (d, hs) = absurd d
DoneBy-settled (some t ∷ ts) ms (d, hs) =
    let (u, e, h) = DoneBy-settled ts ms hs in
    (max t u, ap (later_of (some t)) e, omega (arith, d, h))

settled-cases :
    (ts : List (Option ℕ)) (last : Option ℕ)
    → all_settled ts ≡ last
    → All (DoneBy (up_to drain_timeout_ms last)) ts ⊎ (up_to drain_timeout_ms last ≡ 5000)
settled-cases ts none h = inr refl
settled-cases ts (some t) h = elim (Bool-cases (ltb t drain_timeout_ms)) [
  | inl soon ↦
      inl (weaken t (min drain_timeout_ms t) ts (ground (arith, soon)) (settled-DoneBy ts t h))
  | inr late ↦ inr (ground (arith, late))
]

-- The wait for the messages in flight ends when all of them are done and not before, but after 5000 ms
-- at the latest: it does not pass the time at which the last of them is done.
pub drain_time_exact :
    (ts : List (Option ℕ))
    → (drain_time ts ≤ 5000)
      × (All (DoneBy (drain_time ts)) ts ⊎ (drain_time ts ≡ 5000))
      × ((ms : ℕ) → All (DoneBy ms) ts → drain_time ts ≤ ms)
unfolding drain_time
drain_time_exact ts = (
  drain_time_bound ts,
  settled-cases ts (all_settled ts) refl,
  λ ms hs. let (last, e, h) = DoneBy-settled ts ms hs in rw e (omega (arith, h)),
)

-- `run` catches what its sessions throw: its promise does not reject.
abbrev pub Succeeds : Option (Pending (Unit {0})) → Type 0
Succeeds none = Unit
Succeeds (some never) = Unit
Succeeds (some (fulfils t done)) = Unit
Succeeds (some (rejects t message)) = ⊥

await_if-ok :
    (p : Option (Pending (Unit {0}))) (ms : ℕ) (s : Clock)
    → Succeeds p
    → (await_if p ms s).0 ≡ ok tt
unfolding await_if with_timeout
await_if-ok none ms s h = refl
await_if-ok (some never) ms s h = refl
await_if-ok (some (fulfils t done)) ms s h = ground arith
await_if-ok (some (rejects t message)) ms s h = absurd h

settled-ok :
    (r : Result String (Unit {0}) × Clock) (w : String → Warning)
    → (elim r.0 as (λ _. Result String (Unit {0}) × Clock) [
      | ok a ↦ (ok a, r.1)
      | throw e ↦ warn (w e) r.1
    ]).0
      ≡ ok tt
settled-ok (ok tt, s) w = refl
settled-ok (throw e, s) w = refl

bound-ok :
    (r : Result String (Unit {0}) × Clock) (k : Timed (Unit {0}))
    → r.0 ≡ ok tt
    → ((s : Clock) → (k s).0 ≡ ok tt)
    → (elim r.0 as (λ _. Result String (Unit {0}) × Clock) [
      | ok a ↦ k r.1
      | throw e ↦ (throw e, r.1)
    ]).0
      ≡ ok tt
bound-ok (ok a, s) k h hk = hk s
bound-ok (throw e, s) k h hk = absurd (cc)

-- A cancel or a close that fails, or is never answered, does not keep onModuleDestroy from its other
-- steps: as long as `run` does not reject, it returns, within 8000 ms, and does not throw.
pub on_module_destroy-returns :
    (env : Surroundings)
    → Succeeds env.loop
    → ((on_module_destroy env at_signal).0 ≡ ok tt)
      × ((on_module_destroy env at_signal).1.now ≤ 8000)
unfolding on_module_destroy
on_module_destroy-returns env h =
    let draining : Timed (Unit {0}) = wait (drain_time env.in_flight) in
    let closing : Timed (Unit {0}) =
      catch (await_if env.close close_timeout_ms) (λ m. warn (close_failed m)) in
    let ending : Timed (Unit {0}) = await_if env.loop loop_timeout_ms in
    (
      bound-ok
          (catch (await_if env.cancel cancel_timeout_ms) (λ m. warn (cancel_failed m)) at_signal)
          (draining >> (closing >> ending))
          (settled-ok (await_if env.cancel cancel_timeout_ms at_signal) (λ m. cancel_failed m))
          (λ s.
            bound-ok (closing (draining s).1) ending
              (settled-ok (await_if env.close close_timeout_ms (draining s).1)
                (λ m. close_failed m))
              (λ s₁. await_if-ok env.loop loop_timeout_ms s₁ h)),
      on_module_destroy-Within env at_signal,
    )
