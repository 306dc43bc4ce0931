-- ===== src/Notifications/Broker/Laws.antt =====
-- The headers of a dead-lettered message.
use platform_engineering_lab.Prelude.{
  ◌+◌, ◌≡◌, ◌≢◌, refl, String, [], ◌∷◌, none, some, ◌==◌, eq_iff, arith, if◌then◌else◌,
}
use platform_engineering_lab.Notifications.Broker.{
  Headers, HeaderValue, number, failure_reason, Reason, Delivery, get_header, set_header, or_empty,
  without_deaths, failed_attempts, dead_letter_of,
}

pub get_header-set_header :
    (n m : String) (v : HeaderValue) (hs : Headers)
    → get_header m (set_header n v hs) ≡ (if n == m then some v else get_header m hs)
get_header-set_header n m v [] = refl
get_header-set_header n m v ((k, w) ∷ hs) =
    ground (arith, eq_iff n m, eq_iff k n, eq_iff k m, get_header-set_header n m v hs)

get_header-without_deaths :
    (m : String) (hs : Headers)
    → get_header m (without_deaths hs) ≡ (if m == "x-death" then none else get_header m hs)
get_header-without_deaths m [] = ground arith
get_header-without_deaths m ((k, w) ∷ hs) =
    ground
      (arith, eq_iff m "x-death", eq_iff k "x-death", eq_iff k m, get_header-without_deaths m hs)

-- A dead letter has the message's body and message id, and it carries the reason, the number of
-- attempts with this one, and no death record.
pub dead_letter_of-headers :
    (msg : Delivery) (reason : Reason)
    → let p = dead_letter_of msg reason in
      let value_of = λ (name : String). get_header name p.headers in
      (p.content ≡ msg.content)
      × (p.message_id ≡ msg.message_id)
      × (value_of "x-failed-attempts" ≡ some (number (failed_attempts msg + 1)))
      × (value_of "x-failure-reason" ≡ some (failure_reason reason))
      × (value_of "x-death" ≡ none)
unfolding dead_letter_of
dead_letter_of-headers msg reason =
    let hs = or_empty msg.headers in
    (
      refl,
      refl,
      rw get_header-set_header refl,
      rw (get_header-set_header, get_header-set_header) refl,
      rw (get_header-set_header, get_header-set_header, get_header-without_deaths) refl,
    )

-- A dead letter keeps each of the message's headers but the two that it sets and the death record.
pub dead_letter_of-keeps :
    (msg : Delivery) (reason : Reason) (name : String)
    → name ≢ "x-failed-attempts"
    → name ≢ "x-failure-reason"
    → name ≢ "x-death"
    → get_header name (dead_letter_of msg reason).headers ≡ get_header name (or_empty msg.headers)
unfolding dead_letter_of
dead_letter_of-keeps msg reason name a r d =
    simp (get_header-set_header, get_header-without_deaths)
      (ground (
        arith,
        eq_iff "x-failed-attempts" name,
        eq_iff "x-failure-reason" name,
        eq_iff name "x-death",
      ))
