-- ===== src/Consumers.antt =====
-- consumers/consumer_base.py: the handling of one Kafka message. JSON, `int`, `str` and what a
-- subclass does with an event are parameters; a send that returns is one that Kafka has taken.
pub mod Retries
use miniwallet.Base.{
  ℕ, zero, suc, ◌+◌, String, Bool, true, false, Option, none, some, List, [], ◌∷◌, ◌++◌, filter,
  leb, not, str_eq, ◌<>◌, if◌then◌else◌,
}
use miniwallet.Errors.{Result, ok, raise}
use miniwallet.Events.{EventEnvelope}

abbrev pub max_retries : ℕ
max_retries = 3

abbrev pub Headers : Type 0
Headers = List (String × String)

-- A record of a topic: its topic, value and headers.
pub record KafkaMessage : Type 0 where
  pub topic : String
  pub value : String
  pub headers : Headers

-- What a call of `handle_message` did: the state of the subclass, the messages that it sent, and
-- whether it committed the offset.
pub record Handled (S : Type 0) : Type 0 where
  pub state : S
  pub sent : List KafkaMessage
  pub committed : Bool

-- `f"{self.group_id}.dlq"`
abbrev pub dlq_topic : String → String
dlq_topic group_id = group_id <> ".dlq"

abbrev is_other : String × String → Bool
is_other (k, v) = not (str_eq k "x-retry-count")

module _ (json_loads : String → Option EventEnvelope) (int : String → Option ℕ) (str : ℕ → String)
    {S : Type 0} (process : EventEnvelope → S → Result S) (group_id : String) where
  -- The first x-retry-count header, 0 if there is none; `int` raises on a text that is no number.
  abbrev pub retry_count : Headers → Option ℕ
  retry_count [] = some 0
  retry_count ((k, v) ∷ l) =
      let rest = retry_count l in if str_eq k "x-retry-count" then int v else rest

  abbrev pub dead_letter : KafkaMessage → KafkaMessage
  dead_letter m = record { topic = dlq_topic group_id; value = m.value; headers = [] }

  abbrev pub retried : ℕ → KafkaMessage → KafkaMessage
  retried n m = record m {
    headers = filter is_other m.headers ++ ("x-retry-count", str (n + 1)) ∷ [];
  }

  -- The `except Exception` block.
  abbrev failed : ℕ → KafkaMessage → S → Handled S
  failed n m s = record {
    state = s;
    sent = (if leb max_retries n then dead_letter m else retried n m) ∷ [];
    committed = true;
  }

  abbrev processed : ℕ → KafkaMessage → S → Result S → Handled S
  processed n m s (ok s') = record { state = s'; sent = []; committed = true }
  processed n m s (raise e) = failed n m s

  abbrev with_event : ℕ → KafkaMessage → S → Option EventEnvelope → Handled S
  with_event n m s none = record { state = s; sent = dead_letter m ∷ []; committed = true }
  with_event n m s (some event) = processed n m s (process event s)

  -- `handle_message`; a header that `int` does not read raises before anything is done.
  unfoldable pub handle_message : KafkaMessage → S → Handled S
  handle_message m s = elim (retry_count m.headers) [
    | none ↦ record { state = s; sent = []; committed = false }
    | some n ↦ with_event n m s (json_loads m.value)
  ]

  -- The consumer on a message and on what it sends back to the message's topic, for at most as many
  -- messages as it is given: all that it sent.
  unfoldable pub run_retries : ℕ → KafkaMessage → S → List KafkaMessage
  run_retries zero m s = []
  run_retries (suc n) m s =
      let h = handle_message m s in
      elim h.sent [
        | [] ↦ []
        | x ∷ _ ↦
            x ∷ (let rest = run_retries n x h.state in if str_eq x.topic m.topic then rest else [])
      ]
