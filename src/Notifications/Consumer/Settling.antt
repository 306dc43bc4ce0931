-- ===== src/Notifications/Consumer/Settling.antt =====
-- Every delivery is settled exactly once or not at all, and acknowledged only when it is safe.
use platform_engineering_lab.Prelude.{
  ℕ, suc, ◌≡◌, ◌⊎◌, inl, inr, String, Bool, true, false, List, [], ◌∷◌, Option, Result, ok, throw,
  ◌==◌, eq_refl, ◌&&◌, arith, Result-cases, sym, subst, refl, ◌++◌,
}
use platform_engineering_lab.Effects.{◌>>=◌}
use platform_engineering_lab.Js.Json.{Json}
use platform_engineering_lab.Notifications.Event.{OrderCreatedEvent, parse_order_created}
use platform_engineering_lab.Notifications.Table.{
  NotificationTable, key, record_event, record_event-stored,
}
use platform_engineering_lab.Notifications.Broker.{
  Publication, Cause, permanent, other, Delivery, Action, publish, confirmed, ack, nack, count,
  Channel, Outcome, dead_letter_of,
}
use platform_engineering_lab.Notifications.Consumer.{
  Session, handle_failure, record_and_ack, handle_message, start, emit,
}

-- How often the delivery was acknowledged or rejected.
abbrev pub settled : List Action → ℕ
settled [] = 0
settled (ack ∷ log) = suc (settled log)
settled (nack ∷ log) = suc (settled log)
settled (a ∷ log) = settled log

abbrev pub one_if_ok {ℓ κ} : {E : Type ℓ} {A : Type κ} → Result E A → ℕ
one_if_ok (ok a) = 1
one_if_ok (throw e) = 0

module _ (t : NotificationTable) (json_parse : String → Option Json) (max_attempts : ℕ)
    (ch : Channel) where
  -- Whatever the database, the broker and the channel answer: a handler that returns has settled its
  -- delivery exactly once, and one that throws has not settled it, so that the broker redelivers.
  pub handle_message-settled :
      (msg : Delivery) (db : t.Db)
      → let (r, s) = handle_message t json_parse max_attempts ch msg (start db) in
        settled s.actions ≡ one_if_ok r
  unfolding handle_message record_and_ack handle_failure
  handle_message-settled msg db = ground arith

-- Whether an action of a kind was accepted.
abbrev pub is_acked : List Action → Bool
is_acked [] = false
is_acked (ack ∷ log) = true
is_acked (a ∷ log) = is_acked log

-- The message's content, persistent, through the default exchange to the dead-letter queue.
abbrev pub is_dead_letter_of : Delivery → Publication → Bool
is_dead_letter_of msg p =
    (p.exchange == "")
    && (p.routing_key == "notification.order-created.dlq")
    && (p.content == msg.content)
    && p.persistent

-- Whether the message's dead letter was published first and confirmed next.
abbrev pub confirmed_first : Delivery → List Action → Bool
confirmed_first msg (publish p ∷ confirmed ∷ log) = is_dead_letter_of msg p
confirmed_first msg log = false

is_acked-count : (log : List Action) (o : Outcome) → is_acked (log ++ count o ∷ []) ≡ is_acked log
is_acked-count [] o = refl
is_acked-count (ack ∷ log) o = refl
is_acked-count (a ∷ log) o = is_acked-count log o

confirmed_first-count :
    (msg : Delivery) (log : List Action) (o : Outcome)
    → confirmed_first msg log ≡ true
    → confirmed_first msg (log ++ count o ∷ []) ≡ true
confirmed_first-count msg (publish p ∷ confirmed ∷ log) o h = h
confirmed_first-count msg log o h = cc

module _ (t : NotificationTable) (json_parse : String → Option Json) (max_attempts : ℕ)
    (ch : Channel) where
  -- The row of the event that a message's body holds is in the table.
  abbrev pub IsStored : Delivery → t.Db → Type 0
  IsStored msg db =
      (event : OrderCreatedEvent) × (parse_order_created json_parse msg.content ≡ ok event)
      × (t.rows (key event) db ≡ 1)

  -- If the `try` block of handleMessage ends, the event is stored.
  record_and_ack-IsStored :
      (msg : Delivery) (db : t.Db) (o : Outcome) (s : Session t.Db)
      → record_and_ack t json_parse max_attempts ch msg (start db) ≡ (ok o, s)
      → IsStored msg s.db
  unfolding record_and_ack
  record_and_ack-IsStored msg db o s h =
      elim (Result-cases (parse_order_created json_parse msg.content)) [
        | inl (event, parsed) ↦ elim (Result-cases (record_event t event db).0) [
          | inl (b, recorded) ↦ (event, parsed, ground (arith, record_event-stored t event db b))
          | inr (m, failure) ↦ absurd (ground arith)
        ]
        | inr (e, malformed) ↦ absurd (ground arith)
      ]

  record_and_ack-throw :
      (msg : Delivery) (db : t.Db) (e : Cause) (s : Session t.Db)
      → record_and_ack t json_parse max_attempts ch msg (start db) ≡ (throw e, s)
      → s.actions ≡ []
  unfolding record_and_ack
  record_and_ack-throw msg db e s h = ground arith

  confirmed_from_start :
      (msg : Delivery) (e : Cause) (db : t.Db) (c : ℕ)
      → let (r, s) =
          handle_failure ch max_attempts msg e (record { db = db; calls = c; actions = [] }) in
        is_acked s.actions ≡ true → confirmed_first msg s.actions ≡ true
  unfolding handle_failure dead_letter_of
  confirmed_from_start msg (permanent p) db c a = ground (arith, eq_refl msg.content)
  confirmed_from_start msg (other m) db c a = ground (arith, eq_refl msg.content)

  handle_failure-confirmed :
      (msg : Delivery) (e : Cause) (s : Session t.Db)
      → s.actions ≡ []
      → let s' = (handle_failure ch max_attempts msg e s).1 in
        is_acked s'.actions ≡ true → confirmed_first msg s'.actions ≡ true
  handle_failure-confirmed msg e s h =
      subst
        (λ log.
          let s' =
            (handle_failure ch max_attempts msg e
              (record { db = s.db; calls = s.calls; actions = log })).1 in
          is_acked s'.actions ≡ true → confirmed_first msg s'.actions ≡ true)
        (sym h) (confirmed_from_start msg e s.db s.calls)

  after_ok :
      (msg : Delivery) (db : t.Db) (o : Outcome) (s : Session t.Db)
      → record_and_ack t json_parse max_attempts ch msg (start db) ≡ (ok o, s)
      → handle_message t json_parse max_attempts ch msg (start db)
        ≡ (ok tt, record s { actions = s.actions ++ count o ∷ [] })
  unfolding handle_message
  after_ok msg db o s h = ground arith

  after_throw :
      (msg : Delivery) (db : t.Db) (e : Cause) (s : Session t.Db)
      → record_and_ack t json_parse max_attempts ch msg (start db) ≡ (throw e, s)
      → handle_message t json_parse max_attempts ch msg (start db)
        ≡ (handle_failure ch max_attempts msg e >>= λ o. emit (count o)) s
  unfolding handle_message
  after_throw msg db e s h = ground arith

  counted-confirmed :
      (msg : Delivery) (r : Result Cause Outcome) (s : Session t.Db)
      (f : Session t.Db → Result Cause Outcome × Session t.Db) (s₀ : Session t.Db)
      → f s₀ ≡ (r, s)
      → (is_acked s.actions ≡ true → confirmed_first msg s.actions ≡ true)
      → let s' = ((f >>= λ o. emit (count o)) s₀).1 in
        is_acked s'.actions ≡ true → confirmed_first msg s'.actions ≡ true
  counted-confirmed msg (ok o) s f s₀ e h a =
      ground (arith, is_acked-count s.actions o, confirmed_first-count msg s.actions o)
  counted-confirmed msg (throw x) s f s₀ e h a = ground arith

  ack_safe_of :
      (msg : Delivery) (db : t.Db) (r : Result Cause Outcome) (s : Session t.Db)
      → record_and_ack t json_parse max_attempts ch msg (start db) ≡ (r, s)
      → let s' = (handle_message t json_parse max_attempts ch msg (start db)).1 in
        is_acked s'.actions ≡ true → IsStored msg s'.db ⊎ (confirmed_first msg s'.actions ≡ true)
  ack_safe_of msg db (ok o) s e a =
      rw (after_ok msg db o s e) (inl (record_and_ack-IsStored msg db o s e))
  ack_safe_of msg db (throw x) s e a =
      let f = handle_failure ch max_attempts msg x in
      inr (
        subst (λ p. is_acked p.1.actions ≡ true → confirmed_first msg p.1.actions ≡ true)
          (sym (after_throw msg db x s e))
          (counted-confirmed msg (f s).0 (f s).1 f s refl
            (handle_failure-confirmed msg x s (record_and_ack-throw msg db x s e)))
          a)

  -- A message is acknowledged only if its event is stored, or if the first thing that the channel
  -- accepted was a persistent publication of the message's content through the default exchange with
  -- the routing key notification.order-created.dlq, which the broker confirmed next.
  pub handle_message-ack_safe :
      (msg : Delivery) (db : t.Db) (r : Result Cause (Unit {0})) (s : Session t.Db)
      → handle_message t json_parse max_attempts ch msg (start db) ≡ (r, s)
      → is_acked s.actions ≡ true
      → IsStored msg s.db ⊎ (confirmed_first msg s.actions ≡ true)
  handle_message-ack_safe msg db r s e a =
      let m = record_and_ack t json_parse max_attempts ch msg (start db) in
      subst
        (λ p.
          is_acked p.1.actions ≡ true
          → IsStored msg p.1.db ⊎ (confirmed_first msg p.1.actions ≡ true))
        e (ack_safe_of msg db m.0 m.1 refl) a
