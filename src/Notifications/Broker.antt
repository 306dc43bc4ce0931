-- ===== src/Notifications/Broker.antt =====
-- The consumer's view of the broker: deliveries and their headers, the calls on a confirm channel.
-- topology.ts; failedAttempts and the headers of deadLetter in consumer.service.ts.
pub mod Laws
use platform_engineering_lab.Prelude.{
  ℕ, ◌+◌, ◌≡◌, String, List, [], ◌∷◌, Bool, true, false, not, ◌&&◌, Option, none, some, ◌==◌,
  if◌then◌else◌, filter, Result, ok, throw,
}
use platform_engineering_lab.Notifications.Event.{PermanentError}

abbrev pub main_queue : String
main_queue = "notification.order-created"

abbrev pub dlq : String
dlq = "notification.order-created.dlq"

-- What a handler catches: a PermanentError, or any other error with its message.
pub data Cause : Type 0 where
  permanent : PermanentError → Cause
  other : String → Cause

-- The texts of x-failure-reason: `permanent failure: …` and `gave up after … attempts: …`.
pub data Reason : Type 0 where
  permanent_failure : PermanentError → Reason
  gave_up : ℕ → Cause → Reason

-- An entry of the x-death header, as the broker writes it; a field may be absent.
pub record Death : Type 0 where
  pub queue : Option String
  pub reason : Option String
  pub count : Option ℕ

-- `deaths` is an array; `value` stands for any other value of a header.
pub data HeaderValue : Type 0 where
  deaths : List Death → HeaderValue
  value : String → HeaderValue
  failure_reason : Reason → HeaderValue
  number : ℕ → HeaderValue

abbrev pub Headers : Type 0
Headers = List (String × HeaderValue)

-- ConsumeMessage
pub record Delivery : Type 0 where
  pub content : String
  pub content_type : Option String
  pub message_id : Option String
  pub correlation_id : Option String
  pub headers : Option Headers

abbrev pub get_header : String → Headers → Option HeaderValue
get_header name [] = none
get_header name ((n, v) ∷ hs) = if n == name then some v else get_header name hs

-- A property of an object literal: it replaces the one of that name.
abbrev pub set_header : String → HeaderValue → Headers → Headers
set_header name v [] = (name, v) ∷ []
set_header name v ((n, w) ∷ hs) = if n == name then (n, v) ∷ hs else (n, w) ∷ set_header name v hs

abbrev pub or_empty : Option Headers → Headers
or_empty none = []
or_empty (some hs) = hs

abbrev is : String → Option String → Bool
is t none = false
is t (some s) = s == t

abbrev pub is_rejection : Death → Bool
is_rejection d = is main_queue d.queue && is "rejected" d.reason

abbrev count_or_zero : Option ℕ → ℕ
count_or_zero none = 0
count_or_zero (some n) = n

-- The `reduce` of failedAttempts.
abbrev pub sum_counts : List Death → ℕ
sum_counts [] = 0
sum_counts (d ∷ ds) = count_or_zero d.count + sum_counts ds

abbrev pub count_rejections : Option HeaderValue → ℕ
count_rejections (some (deaths ds)) = sum_counts (filter is_rejection ds)
count_rejections _ = 0

unfoldable pub failed_attempts : Delivery → ℕ
failed_attempts msg = count_rejections (get_header "x-death" (or_empty msg.headers))

-- `Object.entries(headers).filter(([k]) => k !== 'x-death')`
abbrev pub without_deaths : Headers → Headers
without_deaths = filter (λ h. not (h.0 == "x-death"))

-- The options of a publication.
pub record Publication : Type 0 where
  pub exchange : String
  pub routing_key : String
  pub content : String
  pub persistent : Bool
  pub content_type : Option String
  pub message_id : Option String
  pub correlation_id : Option String
  pub headers : Headers

unfoldable pub dead_letter_of : Delivery → Reason → Publication
unfolding failed_attempts
dead_letter_of msg reason = record {
  exchange = "";
  routing_key = dlq;
  content = msg.content;
  persistent = true;
  content_type = msg.content_type;
  message_id = msg.message_id;
  correlation_id = msg.correlation_id;
  headers = set_header "x-failed-attempts" (number (failed_attempts msg + 1)) (
      set_header "x-failure-reason" (failure_reason reason)
        (without_deaths (or_empty msg.headers)));
}

-- outcome: processed | duplicate | retried | dead_lettered | dead_letter_failed
pub data Outcome : Type 0 where
  processed duplicate retried dead_lettered dead_letter_failed : Outcome

-- What the channel has accepted, and what the metrics have counted.
pub data Action : Type 0 where
  publish : Publication → Action
  confirmed ack nack : Action
  count : Outcome → Action

-- How the broker answers a publication before the timer of CONFIRM_TIMEOUT_MS fires.
pub data Confirm : Type 0 where
  confirm : Confirm
  refuse : String → Confirm
  time_out : Confirm

-- The channel during one delivery: whether it is open at the n-th call on it (a call on a closed
-- channel throws), and the answer to a publication.
pub record Channel : Type 0 where
  pub open_at : ℕ → Bool
  pub answer : Confirm
