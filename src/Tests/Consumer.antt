-- ===== src/Tests/Consumer.antt =====
-- The consumers at concrete inputs.
use miniwallet.Base.{
  ℕ, zero, suc, ◌≡◌, refl, ap, str_eq, String, false, true, Option, none, some, [], ◌∷◌, map, arith,
}
use miniwallet.Base.Int.{pos}
use miniwallet.Errors.{Result, ok, raise, validation_error}
use miniwallet.Events.{EventEnvelope, model_dump}
use miniwallet.Db.{has_account}
use miniwallet.Activity.{Store, process, activity_row, rows_of, insert_activity, insert_all}
use miniwallet.Activity.Laws.{completed_transfer, envelope_of}
use miniwallet.Consumers.{KafkaMessage, run_retries}
use miniwallet.Consumers.Retries.{origin, run_retries-dead_letter}
use miniwallet.Events.Parse.{parse_event, event_type_of}
use miniwallet.Tests.Data.{funded_db}

abbrev store : Store
store = record { db = funded_db; activity = [] }

abbrev event : EventEnvelope
event = envelope_of (completed_transfer 100 1 2 (pos 50000) "k") 109 1000 (some 1)

abbrev applied : Store
applied = elim (process event store) [ ok s ↦ s | raise _ ↦ store ]

applies : process event store ≡ ok applied
unfolding process parse_event event_type_of model_dump rows_of activity_row insert_all
    insert_activity has_account
applies = refl

-- Numbers written in strokes, for `str` and `int`.
abbrev strokes : ℕ → String
strokes zero = ""
strokes (suc n) = String.◌∷◌ "|" (strokes n)

abbrev one_more : Option ℕ → Option ℕ
one_more none = none
one_more (some n) = some (suc n)

abbrev count : String → Option ℕ
count String.[] = some 0
count (String.◌∷◌ c s) = one_more (count s)

count-strokes : (n : ℕ) → count (strokes n) ≡ some n
count-strokes zero = refl
count-strokes (suc n) = ap one_more (count-strokes n)

abbrev message_in : KafkaMessage
message_in = record { topic = "account.events"; value = "{}"; headers = [] }

-- A subclass that refuses every event.
abbrev refuse : EventEnvelope → ℕ → Result ℕ
refuse e s = raise validation_error

run_retries-dead_letter_example :
    map origin
      (run_retries (λ _. some event) count strokes refuse "minibank.audit-consumer" 5 message_in 0)
    ≡ ("account.events", "{}")
      ∷ ("account.events", "{}")
      ∷ ("account.events", "{}")
      ∷ ("minibank.audit-consumer.dlq", "{}")
      ∷ []
run_retries-dead_letter_example =
    run_retries-dead_letter (λ _. some event) count strokes refuse "minibank.audit-consumer"
      message_in 0 event validation_error 1 count-strokes (λ s'. refl) refl refl
      (λ e.
        let p : true ≡ false = ap (λ (t : String). str_eq t "account.events") e in
        absurd (ground (arith, p)))
