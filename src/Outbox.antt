-- ===== src/Outbox.antt =====
-- workers/outbox_relay.py: delivers the rows of the outbox table to Kafka. The producer is a
-- parameter: whether `send_and_wait` returns or raises KafkaError for a row. What it acknowledged is
-- kept as a list of messages.
pub mod Delivery
pub mod Batch
pub mod Claim
pub mod Claimed
pub mod Confirm
pub mod Drains
pub mod Rounds
pub mod Selection
pub mod Sent
pub mod Settling
pub mod Acked
use miniwallet.Base.{
  ℕ, zero, suc, ◌+◌, ◌*◌, ◌-◌, String, Bool, true, false, not, ◌&&◌, ◌||◌, Option, none, some, List,
  [], ◌∷◌, map, filter, take, any, ltb, leb, ◌==◌, if◌then◌else◌,
}
use miniwallet.Events.{EventEnvelope}
use miniwallet.Models.{OutboxStatus}
use miniwallet.Db.{OutboxRow}

abbrev pub batch_size : ℕ
batch_size = 100

abbrev pub min_sleep : ℕ
min_sleep = 1

abbrev pub max_sleep : ℕ
max_sleep = 30

abbrev pub max_outbox_retries : ℕ
max_outbox_retries = 10

abbrev pub is_pending : OutboxStatus → Bool
is_pending OutboxStatus.pending = true
is_pending _ = false

abbrev pub is_publishing : OutboxStatus → Bool
is_publishing OutboxStatus.publishing = true
is_publishing _ = false

abbrev pub is_published : OutboxStatus → Bool
is_published OutboxStatus.published = true
is_published _ = false

abbrev pub is_failed : OutboxStatus → Bool
is_failed OutboxStatus.failed = true
is_failed _ = false

-- A message on a topic.
pub record Message : Type 0 where
  pub topic : String
  pub payload : EventEnvelope

abbrev pub message : OutboxRow → Message
message r = record { topic = r.topic; payload = r.payload }

-- ORDER BY created_at
abbrev pub insert_by_time : OutboxRow → List OutboxRow → List OutboxRow
insert_by_time r [] = r ∷ []
insert_by_time r (x ∷ xs) =
    let rest = insert_by_time r xs in if ltb x.created_at r.created_at then x ∷ rest else r ∷ x ∷ xs

abbrev pub sort_by_time : List OutboxRow → List OutboxRow
sort_by_time [] = []
sort_by_time (r ∷ l) = insert_by_time r (sort_by_time l)

abbrev pub set_publishing : OutboxRow → OutboxRow
set_publishing r = record r { status = OutboxStatus.publishing }

abbrev pub contains_id : List OutboxRow → ℕ → Bool
contains_id rows i = any (λ (r : OutboxRow). r.id == i) rows

-- The rows that `claim_batch` selects: pending, oldest first, those locked by another skipped.
unfoldable pub select_batch : (ℕ → Bool) → List OutboxRow → List OutboxRow
select_batch locked outbox =
    take batch_size
      (sort_by_time (filter (λ (r : OutboxRow). is_pending r.status && not (locked r.id)) outbox))

-- `claim_batch`: the claimed rows as the relay holds them, and the table.
unfoldable pub claim_batch : (ℕ → Bool) → List OutboxRow → List OutboxRow × List OutboxRow
claim_batch locked outbox =
    let rows = select_batch locked outbox in
    (
      map set_publishing rows,
      map (λ (r : OutboxRow). if contains_id rows r.id then set_publishing r else r) outbox,
    )

-- What one pass draws: rows locked elsewhere, Kafka's answers, and the clocks.
pub record Pass : Type 0 where
  pub locked : ℕ → Bool
  pub acks : OutboxRow → Bool
  pub published_at : OutboxRow → ℕ
  pub monotonic : ℕ
  pub now : ℕ

-- The row after its `send_and_wait`.
unfoldable pub publish_row : Pass → OutboxRow → OutboxRow
publish_row p r =
    if p.acks r
    then record r { status = OutboxStatus.published; published_at = some (p.published_at r) }
    else record r {
      retry_count = r.retry_count + 1;
      status =
          if leb max_outbox_retries (r.retry_count + 1)
          then OutboxStatus.failed
          else OutboxStatus.pending;
    }

abbrev pub acknowledge : Pass → OutboxRow → List Message → List Message
acknowledge p r log = if p.acks r then message r ∷ log else log

-- `for row in claimed`: the rows with their new statuses, and what Kafka has acknowledged.
unfoldable pub publish_all : Pass → List OutboxRow → List Message → List OutboxRow × List Message
unfolding publish_row
publish_all p [] log = ([], log)
publish_all p (r ∷ rows) log =
    let (rest, log') = publish_all p rows (acknowledge p r log) in (publish_row p r ∷ rest, log')

-- `db.merge(row)`: the row with its id is overwritten, or inserted where there is none.
abbrev pub merge : OutboxRow → List OutboxRow → List OutboxRow
merge r [] = r ∷ []
merge r (x ∷ xs) = let rest = merge r xs in if x.id == r.id then r ∷ xs else x ∷ rest

unfoldable pub confirm_batch : List OutboxRow → List OutboxRow → List OutboxRow
confirm_batch [] outbox = outbox
confirm_batch (r ∷ rows) outbox = confirm_batch rows (merge r outbox)

abbrev pub is_stuck : ℕ → OutboxRow → Bool
is_stuck now r = is_publishing r.status && ltb (r.created_at + 5 * 60) now

unfoldable pub recover_stuck_rows : ℕ → List OutboxRow → List OutboxRow
recover_stuck_rows now outbox =
    map
      (λ (r : OutboxRow). if is_stuck now r then record r { status = OutboxStatus.pending } else r)
      outbox

-- A NULL `published_at` compares to nothing.
abbrev older_than : ℕ → ℕ → Option ℕ → Bool
older_than days now none = false
older_than days now (some t) = ltb (t + days * 86400) now

abbrev pub is_deletable : ℕ → OutboxRow → Bool
is_deletable now r =
    is_published r.status && older_than 7 now r.published_at
    || is_failed r.status && older_than 30 now (some r.created_at)

unfoldable pub cleanup_published_rows : ℕ → List OutboxRow → List OutboxRow
cleanup_published_rows now outbox = filter (λ (r : OutboxRow). not (is_deletable now r)) outbox

-- The relay's variables, the table, and what Kafka has acknowledged.
pub record Relay : Type 0 where
  pub outbox : List OutboxRow
  pub acked : List Message
  pub backoff : ℕ
  pub last_recovery : ℕ
  pub last_cleanup : ℕ

-- `min(backoff * 2, MAX_SLEEP)`
abbrev pub backed_off : ℕ → ℕ
backed_off b = if ltb max_sleep (b * 2) then max_sleep else b * 2

abbrev pub recover_if_due : Pass → Relay → Relay
recover_if_due p s =
    if ltb (s.last_recovery + 300) p.monotonic
    then record s { outbox = recover_stuck_rows p.now s.outbox; last_recovery = p.monotonic }
    else s

abbrev pub cleanup_if_due : Pass → Relay → Relay
cleanup_if_due p s =
    if ltb (s.last_cleanup + 86400) p.monotonic
    then record s { outbox = cleanup_published_rows p.now s.outbox; last_cleanup = p.monotonic }
    else s

abbrev pub next_backoff : List OutboxRow → ℕ → ℕ
next_backoff rows b =
    if any (λ (r : OutboxRow). is_published r.status) rows then min_sleep else backed_off b

abbrev pub deliver : Pass → Relay → List OutboxRow × List OutboxRow → Relay
deliver p s ([], outbox) = record s { outbox = outbox; backoff = backed_off s.backoff }
deliver p s (r ∷ claimed, outbox) =
    let (rows, acked) = publish_all p (r ∷ claimed) s.acked in
    record s {
      outbox = confirm_batch rows outbox;
      acked = acked;
      backoff = next_backoff rows s.backoff;
    }

-- One round of `relay_loop`.
unfoldable pub relay_pass : Pass → Relay → Relay
relay_pass p s =
    let s₁ = cleanup_if_due p (recover_if_due p s) in deliver p s₁ (claim_batch p.locked s₁.outbox)

-- `relay_loop` for as many rounds as it has been given.
unfoldable pub relay_loop : List Pass → Relay → Relay
unfolding relay_pass
relay_loop [] s = s
relay_loop (p ∷ l) s = relay_loop l (relay_pass p s)

-- `relay_loop` at its start.
abbrev pub started : List OutboxRow → Relay
started outbox = record {
  outbox = outbox;
  acked = [];
  backoff = min_sleep;
  last_recovery = 0;
  last_cleanup = 0;
}
