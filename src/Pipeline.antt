-- ===== src/Pipeline.antt =====
-- The way of an event from the service through the relay and Kafka to the activity consumer: the
-- steps of System, of workers/outbox_relay.py and of consumers/consumer_base.py with
-- workers/activity_consumer.py, on one state and in any order. The outbox of `db` keeps every event
-- that was written; `table` is the outbox table, which the relay updates and cleans.
pub mod Arrival
pub mod Origin
pub mod Reading
pub mod Relaying
pub mod Traces
pub mod Whereabouts
use miniwallet.Base.{
  ℕ, ◌≡◌, ◌≢◌, ◌&&◌, Bool, if◌then◌else◌, String, Option, List, [], ◌∷◌, ◌++◌, All, IsOneOf, filter,
}
use miniwallet.Schemas.{HashInput}
use miniwallet.Events.{EventEnvelope}
use miniwallet.Db.{Db, OutboxRow}
use miniwallet.System as System
use miniwallet.System.{initial}
use miniwallet.Outbox.{
  Message, Pass, claim_batch, publish_all, confirm_batch, recover_stuck_rows,
  cleanup_published_rows, is_deletable, is_failed,
}
use miniwallet.Consumers.{KafkaMessage, Handled, handle_message}
use miniwallet.Activity.{TransactionActivity, Store, process}

pub record Line : Type 0 where
  pub db : Db
  pub table : List OutboxRow
  -- The rows that relays have claimed, as they hold them.
  pub held : List OutboxRow
  -- The failed rows that the cleanup has removed.
  pub given_up : List OutboxRow
  -- What Kafka has acknowledged to the relay.
  pub log : List Message
  pub activity : List TransactionActivity
  -- The messages whose offset the consumer has committed, and what it has sent to Kafka itself:
  -- retries and dead letters.
  pub committed : List Message
  pub sent : List KafkaMessage

-- The migrated database, and nothing else.
abbrev pub started : Line
started = record {
  db = initial;
  table = [];
  held = [];
  given_up = [];
  log = [];
  activity = [];
  committed = [];
  sent = [];
}

abbrev pub AreApart : OutboxRow → OutboxRow → Type 0
AreApart r x = (r.id ≢ x.id) × (r.payload.event_id ≢ x.payload.event_id)

-- No two rows have the same id, and no two events: each was drawn by its own `uuid4`.
abbrev pub AreDistinct : List OutboxRow → Type 0
AreDistinct [] = Unit
AreDistinct (r ∷ l) = All (AreApart r) l × AreDistinct l

abbrev pub store : Line → Store
store s = record { db = s.db; activity = s.activity }

-- `group_id` of the activity consumer
abbrev pub group_id : String
group_id = "minibank.activity-consumer"

module _ (sha256 : HashInput → String) (json_dumps : EventEnvelope → String)
    (json_loads : String → Option EventEnvelope) (int : String → Option ℕ) (str : ℕ → String) where
  -- The record of a topic that `send_and_wait(row.topic, json.dumps(row.payload).encode())` makes.
  abbrev pub kafka_message : Message → KafkaMessage
  kafka_message m = record { topic = m.topic; value = json_dumps m.payload; headers = [] }

  -- The consumer on one message.
  abbrev pub handled : Message → Store → Handled Store
  handled m s = handle_message json_loads int str process group_id (kafka_message m) s

  -- The line after the consumer has read a message.
  abbrev pub after_reading : Line → Message → Line
  after_reading s m = record s {
    activity = (handled m (store s)).state.activity;
    committed = if (handled m (store s)).committed then m ∷ s.committed else s.committed;
    sent = (handled m (store s)).sent ++ s.sent;
  }

  -- One step of the services, of a relay, or of the consumer. A relay confirms and sends rows that
  -- one has claimed; the consumer reads any message of the log, also one that it has read before.
  pub data Step (s : Line) : Line → Type 0 where
    writes :
        {db' : Db} (events : List OutboxRow)
        → System.Step sha256 s.db db'
        → db'.outbox ≡ events ++ s.db.outbox
        → AreDistinct db'.outbox
        → Step s (record s { db = db'; table = events ++ s.table })
    claims :
        (locked : ℕ → Bool)
        → Step s (record s {
          table = (claim_batch locked s.table).1;
          held = (claim_batch locked s.table).0 ++ s.held;
        })
    confirms :
        (p : Pass) (batch : List OutboxRow)
        → All (λ (r : OutboxRow). IsOneOf r s.held) batch
        → Step s (record s {
          table = confirm_batch (publish_all p batch s.log).0 s.table;
          log = (publish_all p batch s.log).1;
        })
    crashes :
        (p : Pass) (batch : List OutboxRow)
        → All (λ (r : OutboxRow). IsOneOf r s.held) batch
        → Step s (record s { log = (publish_all p batch s.log).1 })
    recovers : (now : ℕ) → Step s (record s { table = recover_stuck_rows now s.table })
    cleans :
        (now : ℕ)
        → Step s (record s {
          table = cleanup_published_rows now s.table;
          given_up =
              filter (λ (r : OutboxRow). is_deletable now r && is_failed r.status) s.table
              ++ s.given_up;
        })
    reads : (m : Message) → IsOneOf m s.log → Step s (after_reading s m)

  -- The states that the whole can reach.
  pub data Run : Line → Type 0 where
    starts : Run started
    steps : {s t : Line} → Run s → Step s t → Run t
