-- ===== src/Notifications/Consumer/Redelivery.antt =====
-- The broker's part in a retry (topology.ts): a message that is rejected from the main queue waits in
-- the retry queue, expires there and comes back. The broker is a parameter, with what RabbitMQ
-- documents of dead-lettering: the body is kept, and the array x-death has one entry for each queue and
-- reason, whose `count` grows by one and which moves to the front.
use platform_engineering_lab.Prelude.{
  ℕ, ◌+◌, ◌≡◌, refl, sym, ap, ◌∙◌, String, Bool, true, false, List, [], ◌∷◌, Option, none, some,
  ◌&&◌, ◌==◌, eq_iff, filter, arith, if◌then◌else◌,
}
use platform_engineering_lab.Notifications.Broker.{
  main_queue, Death, HeaderValue, deaths, Delivery, get_header, or_empty, is_rejection, sum_counts,
  count_rejections, failed_attempts,
}

abbrev pub retry_queue : String
retry_queue = "notification.order-created.retry"

-- The entries of a message's x-death header.
abbrev pub entries : Option HeaderValue → List Death
entries (some (deaths ds)) = ds
entries _ = []

abbrev pub deaths_of : Delivery → List Death
deaths_of msg = entries (get_header "x-death" (or_empty msg.headers))

abbrev has_text : String → Option String → Bool
has_text text none = false
has_text text (some s) = s == text

abbrev is_entry : String → String → Death → Bool
is_entry queue reason d = has_text queue d.queue && has_text reason d.reason

abbrev counted : Option ℕ → ℕ
counted none = 0
counted (some n) = n

-- The count of the entry for a queue and a reason, 0 where there is none.
abbrev pub entry_count : String → String → List Death → ℕ
entry_count queue reason [] = 0
entry_count queue reason (d ∷ ds) =
    let rest = entry_count queue reason ds in
    if is_entry queue reason d then counted d.count else rest

abbrev pub other_entries : String → String → List Death → List Death
other_entries queue reason [] = []
other_entries queue reason (d ∷ ds) =
    let rest = other_entries queue reason ds in if is_entry queue reason d then ds else d ∷ rest

-- The entries once the message has been dead-lettered from a queue for a reason.
abbrev pub dead_lettered_from : String → String → List Death → List Death
dead_lettered_from queue reason ds =
    record {
      queue = some queue;
      reason = some reason;
      count = some (entry_count queue reason ds + 1);
    }
    ∷ other_entries queue reason ds

-- What a message is when it comes back after a rejection.
pub record Redelivery : Type 0 where
  pub redeliver : Delivery → Delivery
  pub same_content : (msg : Delivery) → (redeliver msg).content ≡ msg.content
  pub death_record :
      (msg : Delivery)
      → deaths_of (redeliver msg)
        ≡ dead_lettered_from retry_queue "expired"
            (dead_lettered_from main_queue "rejected" (deaths_of msg))

abbrev rejections : List Death → ℕ
rejections ds = sum_counts (filter is_rejection ds)

rejections-entries : (o : Option HeaderValue) → count_rejections o ≡ rejections (entries o)
rejections-entries none = refl
rejections-entries (some (deaths ds)) = refl
rejections-entries (some v) = refl

split_count :
    (ds : List Death)
    → entry_count main_queue "rejected" ds + rejections (other_entries main_queue "rejected" ds)
      ≡ rejections ds
split_count [] = refl
split_count (d ∷ ds) = ground (arith, split_count ds)

-- An entry of the retry queue is no rejection.
has_text-other : (o : Option String) → has_text "expired" o ≡ true → has_text "rejected" o ≡ false
has_text-other none h = refl
has_text-other (some s) h = rw ((eq_iff s "expired").0 h) refl

expired-other : (d : Death) → is_entry retry_queue "expired" d ≡ true → is_rejection d ≡ false
expired-other d h =
    let other : has_text "rejected" d.reason ≡ false = has_text-other d.reason (ground arith) in
    ground (arith, other)

without_expired :
    (ds : List Death) → rejections (other_entries retry_queue "expired" ds) ≡ rejections ds
without_expired [] = refl
without_expired (d ∷ ds) = ground (arith, without_expired ds, expired-other d)

rejected-rejections :
    (ds : List Death) → rejections (dead_lettered_from main_queue "rejected" ds) ≡ rejections ds + 1
rejected-rejections ds = omega (arith, split_count ds)

expired-rejections :
    (ds : List Death) → rejections (dead_lettered_from retry_queue "expired" ds) ≡ rejections ds
expired-rejections ds = without_expired ds

-- So a message that comes back has failed once more.
pub redeliver-failed_attempts :
    (broker : Redelivery) (msg : Delivery)
    → failed_attempts (broker.redeliver msg) ≡ failed_attempts msg + 1
unfolding failed_attempts
redeliver-failed_attempts broker msg =
    let header = λ (m : Delivery). get_header "x-death" (or_empty m.headers) in
    rejections-entries (header (broker.redeliver msg))
    ∙ ap rejections (broker.death_record msg)
    ∙ expired-rejections (dead_lettered_from main_queue "rejected" (deaths_of msg))
    ∙ rejected-rejections (deaths_of msg)
    ∙ ap (λ n. n + 1) (sym (rejections-entries (header msg)))
