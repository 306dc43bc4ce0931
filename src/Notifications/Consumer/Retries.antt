-- ===== src/Notifications/Consumer/Retries.antt =====
-- The life of one message across redeliveries: reject, wait in the retry queue, come back.
-- The broker's part is the parameter Redelivery.
use native.Mathlib.Decide.{dec_le}
use platform_engineering_lab.Prelude.{
  ℕ, zero, suc, ◌+◌, ◌<◌, ◌≤◌, ◌≡◌, refl, ap, ◌⊎◌, inl, inr, String, Bool, true, false, List, [],
  ◌∷◌, ◌++◌, Option, ok, throw, Result-cases, arith, replicate, if◌then◌else◌, le→leb, gt→leb,
}
use platform_engineering_lab.Js.Json.{Json}
use platform_engineering_lab.Notifications.Event.{OrderCreatedEvent, parse_order_created}
use platform_engineering_lab.Notifications.Table.{NotificationTable, record_event}
use platform_engineering_lab.Notifications.Broker.{
  Delivery, failed_attempts, Outcome, processed, duplicate, retried, dead_lettered,
  dead_letter_failed, Action, nack, count, Channel, confirm,
}
use platform_engineering_lab.Notifications.Consumer.{handle_message, start, outcome_of}
use platform_engineering_lab.Notifications.Consumer.Redelivery.{
  Redelivery, redeliver-failed_attempts,
}
use platform_engineering_lab.Notifications.Consumer.Branches.{
  IsOpen, handle_message-malformed, handle_message-recorded, handle_message-failed,
}

abbrev pub outcomes : List Action → List Outcome
outcomes [] = []
outcomes (count o ∷ log) = o ∷ outcomes log
outcomes (a ∷ log) = outcomes log

abbrev pub is_nacked : List Action → Bool
is_nacked [] = false
is_nacked (nack ∷ log) = true
is_nacked (a ∷ log) = is_nacked log

-- The outcomes that end a message's life.
abbrev pub IsFinal : Outcome → Type 0
IsFinal processed = Unit
IsFinal duplicate = Unit
IsFinal dead_lettered = Unit
IsFinal retried = ⊥
IsFinal dead_letter_failed = ⊥

module _ (t : NotificationTable) (json_parse : String → Option Json) (max_attempts : ℕ)
    (ch : Channel) (broker : Redelivery) where
  -- The outcomes of a message's deliveries, at most so many.
  pub life : ℕ → Delivery → t.Db → List Outcome
  life zero msg db = []
  life (suc n) msg db =
      let s = (handle_message t json_parse max_attempts ch msg (start db)).1 in
      let rest = life n (broker.redeliver msg) s.db in
      outcomes s.actions ++ (if is_nacked s.actions then rest else [])

-- One delivery either ends the message's life or rejects it below the maximum.
abbrev Ends : ℕ → ℕ → List Action → Type 0
Ends failed max_attempts log =
    ((log ≡ nack ∷ count retried ∷ []) × (failed + 1 < max_attempts))
    ⊎ ((o : Outcome) × IsFinal o × (outcomes log ≡ o ∷ []) × (is_nacked log ≡ false))

IsFinal-outcome_of : (b : Bool) → IsFinal (outcome_of b)
IsFinal-outcome_of true = tt
IsFinal-outcome_of false = tt

module _ (t : NotificationTable) (json_parse : String → Option Json) (max_attempts : ℕ)
    (ch : Channel) (is_open : IsOpen ch) (confirms : ch.answer ≡ confirm) where
  handle_message-Ends :
      (msg : Delivery) (db : t.Db)
      → Ends
          (failed_attempts msg)
          max_attempts
          (handle_message t json_parse max_attempts ch msg (start db)).1.actions
  handle_message-Ends msg db = elim (Result-cases (parse_order_created json_parse msg.content)) [
    | inl (event, parsed) ↦ elim (Result-cases (record_event t event db).0) [
      | inl (b, recorded) ↦
          rw
            (handle_message-recorded t json_parse max_attempts ch is_open msg db event b parsed
              recorded)
            (inr (outcome_of b, IsFinal-outcome_of b, refl, refl))
      | inr (m, failure) ↦
          let branch =
            handle_message-failed t json_parse max_attempts ch is_open msg db event m parsed failure
              confirms in
          elim (dec_le max_attempts (failed_attempts msg + 1)) [
            | yes reached ↦
                rw (branch, le→leb max_attempts (failed_attempts msg + 1) reached)
                  (inr (dead_lettered, tt, refl, refl))
            | no below ↦
                rw (branch, gt→leb max_attempts (failed_attempts msg + 1) (omega arith))
                  (inl (refl, omega arith))
          ]
    ]
    | inr (e, malformed) ↦
        rw
          ((handle_message-malformed t json_parse max_attempts ch is_open msg db e malformed
            confirms).1)
          (inr (dead_lettered, tt, refl, refl))
  ]

  -- With an open channel and a broker that confirms, and that keeps x-death as RabbitMQ documents it, a
  -- message that has been rejected fewer than MAX_ATTEMPTS times is retried a number of times that
  -- keeps within MAX_ATTEMPTS attempts, and is then processed, recognised as a duplicate or
  -- dead-lettered, whatever the database answers.
  pub life-ends :
      (broker : Redelivery) (n : ℕ) (msg : Delivery) (db : t.Db)
      → failed_attempts msg < max_attempts
      → max_attempts ≤ failed_attempts msg + n
      → (k : ℕ) × (o : Outcome) × (life t json_parse max_attempts ch broker n msg db
          ≡ replicate k retried ++ o ∷ [])
        × (k + failed_attempts msg < max_attempts)
        × IsFinal o
  unfolding life
  life-ends broker zero msg db below enough = absurd (omega arith)
  life-ends broker (suc n) msg db below enough = elim (handle_message-Ends msg db) [
    | inl (log, more) ↦
        let s = (handle_message t json_parse max_attempts ch msg (start db)).1 in
        let (k, o, later, within, final) =
          life-ends broker n (broker.redeliver msg) s.db
            (omega (arith, redeliver-failed_attempts broker msg))
            (omega (arith, redeliver-failed_attempts broker msg)) in
        (
          suc k,
          o,
          rw log (ap (λ os. retried ∷ os) later),
          omega (arith, redeliver-failed_attempts broker msg),
          final,
        )
    | inr (o, final, out, kept) ↦ (0, o, rw (out, kept), omega arith, final)
  ]

  -- The table answers no insert.
  abbrev pub IsDown : Type 0
  IsDown =
      (event : OrderCreatedEvent) (db : t.Db)
      → (m : String) × ((record_event t event db).0 ≡ throw m)

  -- During a database outage, with the same channel and broker, a well-formed message that has been
  -- rejected below MAX_ATTEMPTS times is rejected each time until its attempt of that number, and
  -- dead-lettered then: a new one is attempted exactly MAX_ATTEMPTS times.
  pub life-outage :
      (broker : Redelivery) (n k : ℕ) (msg : Delivery) (db : t.Db) (event : OrderCreatedEvent)
      → IsDown
      → parse_order_created json_parse msg.content ≡ ok event
      → failed_attempts msg + suc k ≡ max_attempts
      → suc k ≤ n
      → life t json_parse max_attempts ch broker n msg db
        ≡ replicate k retried ++ dead_lettered ∷ []
  unfolding life
  life-outage broker zero k msg db event down parsed left enough = absurd (omega arith)
  life-outage broker (suc n) zero msg db event down parsed left enough =
      let (m, failure) = down event db in
      let branch =
        handle_message-failed t json_parse max_attempts ch is_open msg db event m parsed failure
          confirms in
      rw (branch, le→leb max_attempts (failed_attempts msg + 1) (omega arith))
  life-outage broker (suc n) (suc k) msg db event down parsed left enough =
      let s = (handle_message t json_parse max_attempts ch msg (start db)).1 in
      let (m, failure) = down event db in
      let branch =
        handle_message-failed t json_parse max_attempts ch is_open msg db event m parsed failure
          confirms in
      rw (branch, gt→leb max_attempts (failed_attempts msg + 1) (omega arith))
        (ap (λ os. retried ∷ os)
          (life-outage broker n k (broker.redeliver msg) s.db event down
            (rw (broker.same_content msg) parsed)
            (omega (arith, redeliver-failed_attempts broker msg)) (omega arith)))
