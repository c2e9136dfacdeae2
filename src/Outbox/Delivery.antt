-- ===== src/Outbox/Delivery.antt =====
-- At-least-once delivery: the relay against every interleaving with writers, other relays and crashes.
use mathlib.Core.List.{Mem, mem-cons_self, mem-cons_of_mem}
use miniwallet.Base.{
  ℕ, ◌≤◌, ◌≡◌, refl, ◌+◌, Option, List, [], ◌∷◌, Bool, true, false, String, ◌==◌, if◌then◌else◌,
  if_intro, filter, All, All-map, arith, leb,
}
use miniwallet.Events.{EventPayload}
use miniwallet.Models.{OutboxStatus}
use miniwallet.Db.{Db, Env, OutboxRow, publish_event}
use miniwallet.Outbox.{
  Message, message, Pass, publish_row, publish_all, acknowledge, merge, confirm_batch, claim_batch,
  select_batch, set_publishing, contains_id, recover_stuck_rows, is_stuck, cleanup_published_rows,
  max_outbox_retries,
}

-- What a row's status says: a published row's message was acknowledged by Kafka, and a failed row
-- has used up its retries.
abbrev pub StatusHolds : List Message → OutboxRow → OutboxStatus → Type 0
StatusHolds log r OutboxStatus.published = Mem (message r) log
StatusHolds log r OutboxStatus.failed = max_outbox_retries ≤ r.retry_count
StatusHolds log r _ = Unit

abbrev pub RowHolds : List Message → OutboxRow → Type 0
RowHolds log r = StatusHolds log r r.status

module _ (P : OutboxRow → Type 0) where
  pub All-filter : (p : OutboxRow → Bool) (l : List OutboxRow) → All P l → All P (filter p l)
  All-filter p [] a = a
  All-filter p (x ∷ l) (a, rest) =
      if_intro (All P) (p x) (x ∷ filter p l) (filter p l) (λ _. (a, All-filter p l rest))
        (λ _. All-filter p l rest)

  All-merge : (r : OutboxRow) (l : List OutboxRow) → P r → All P l → All P (merge r l)
  All-merge r [] h a = (h, a)
  All-merge r (x ∷ l) h (a, rest) =
      if_intro (All P) (x.id == r.id) (r ∷ l) (x ∷ merge r l) (λ _. (h, rest))
        (λ _. (a, All-merge r l h rest))

  pub All-confirm :
      (rows outbox : List OutboxRow) → All P rows → All P outbox → All P (confirm_batch rows outbox)
  unfolding confirm_batch
  All-confirm [] outbox h a = a
  All-confirm (r ∷ rows) outbox (h, hs) a =
      All-confirm rows (merge r outbox) hs (All-merge r outbox h a)

acknowledge-grows :
    (p : Pass) (r : OutboxRow) (log : List Message) (m : Message)
    → Mem m log
    → Mem m (acknowledge p r log)
acknowledge-grows p r log m h =
    if_intro (Mem m) (p.acks r) (message r ∷ log) log (λ _. mem-cons_of_mem (message r) h) (λ _. h)

pub publish_all-grows :
    (p : Pass) (rows : List OutboxRow) (log : List Message) (m : Message)
    → Mem m log
    → Mem m (publish_all p rows log).1
unfolding publish_all
publish_all-grows p [] log m h = h
publish_all-grows p (r ∷ rows) log m h =
    publish_all-grows p rows (acknowledge p r log) m (acknowledge-grows p r log m h)

StatusHolds-grows :
    (log log' : List Message) (r : OutboxRow) (st : OutboxStatus)
    → ((m : Message) → Mem m log → Mem m log')
    → StatusHolds log r st
    → StatusHolds log' r st
StatusHolds-grows log log' r OutboxStatus.published g h = g (message r) h
StatusHolds-grows log log' r OutboxStatus.failed g h = h
StatusHolds-grows log log' r OutboxStatus.pending g h = h
StatusHolds-grows log log' r OutboxStatus.publishing g h = h

All-grows :
    (log log' : List Message) (l : List OutboxRow)
    → ((m : Message) → Mem m log → Mem m log')
    → All (RowHolds log) l
    → All (RowHolds log') l
All-grows log log' [] g h = h
All-grows log log' (r ∷ l) g (h, hs) =
    (StatusHolds-grows log log' r r.status g h, All-grows log log' l g hs)

failed_or_pending :
    (log : List Message) (r : OutboxRow) (b : Bool)
    → (b ≡ true → max_outbox_retries ≤ r.retry_count)
    → StatusHolds log r (if b then OutboxStatus.failed else OutboxStatus.pending)
failed_or_pending log r true h = h refl
failed_or_pending log r false h = tt

published_or_not :
    (p : Pass) (r : OutboxRow) (log : List Message) (b : Bool)
    → p.acks r ≡ b
    → RowHolds (acknowledge p r log) (publish_row p r)
unfolding publish_row
published_or_not p r log true e = rw e mem-cons_self
published_or_not p r log false e = rw e (
    failed_or_pending log (record r { retry_count = r.retry_count + 1 })
      (leb max_outbox_retries (r.retry_count + 1)) (λ h. ground arith))

publish_row-Holds :
    (p : Pass) (r : OutboxRow) (log : List Message)
    → RowHolds (acknowledge p r log) (publish_row p r)
publish_row-Holds p r log = published_or_not p r log (p.acks r) refl

publish_all-Holds :
    (p : Pass) (rows : List OutboxRow) (log : List Message)
    → let (rows', log') = publish_all p rows log in All (RowHolds log') rows'
unfolding publish_all
publish_all-Holds p [] log = tt
publish_all-Holds p (r ∷ rows) log = (
  StatusHolds-grows (acknowledge p r log) _ (publish_row p r) (publish_row p r).status
      (publish_all-grows p rows (acknowledge p r log)) (publish_row-Holds p r log),
  publish_all-Holds p rows (acknowledge p r log),
)

-- One step of the table and of Kafka: a writer adds an event, a relay claims a batch, one relay sends
-- and confirms a batch that it holds, one crashes after it has sent a batch or a part of it, and the
-- two maintenance jobs. What a relay holds may be older than the table.
pub data Step : List OutboxRow × List Message → List OutboxRow × List Message → Type 0 where
  enqueues :
      (env : Env) (topic event_type : String) (payload : EventPayload) (actor event_id : Option ℕ)
      (db : Db) (log : List Message)
      → Step
          (db.outbox, log)
          ((publish_event env topic event_type payload actor event_id db).outbox, log)
  claims :
      (locked : ℕ → Bool) (outbox : List OutboxRow) (log : List Message)
      → Step (outbox, log) ((claim_batch locked outbox).1, log)
  confirms :
      (p : Pass) (batch outbox : List OutboxRow) (log : List Message)
      → Step
          (outbox, log)
          (confirm_batch (publish_all p batch log).0 outbox, (publish_all p batch log).1)
  crashes :
      (p : Pass) (sent outbox : List OutboxRow) (log : List Message)
      → Step (outbox, log) (outbox, (publish_all p sent log).1)
  recovers :
      (now : ℕ) (outbox : List OutboxRow) (log : List Message)
      → Step (outbox, log) (recover_stuck_rows now outbox, log)
  cleans :
      (now : ℕ) (outbox : List OutboxRow) (log : List Message)
      → Step (outbox, log) (cleanup_published_rows now outbox, log)

-- Any number of steps.
pub data Reach : List OutboxRow × List Message → List OutboxRow × List Message → Type 0 where
  stays : {s : List OutboxRow × List Message} → Reach s s
  then_step : {s t u : List OutboxRow × List Message} → Reach s t → Step t u → Reach s u

abbrev pub Delivered : List OutboxRow × List Message → Type 0
Delivered s = All (RowHolds s.1) s.0

pub Step-Delivered : {s t : List OutboxRow × List Message} → Step s t → Delivered s → Delivered t
unfolding publish_event claim_batch recover_stuck_rows cleanup_published_rows
Step-Delivered (enqueues env topic event_type payload actor event_id db log) h = (tt, h)
Step-Delivered (claims locked outbox log) h =
    All-map (RowHolds log) _ outbox
      (λ r a.
        if_intro (RowHolds log) (contains_id (select_batch locked outbox) r.id) (set_publishing r) r
          (λ _. tt) (λ _. a))
      h
Step-Delivered (confirms p batch outbox log) h =
    All-confirm (RowHolds _) _ outbox (publish_all-Holds p batch log)
      (All-grows log _ outbox (publish_all-grows p batch log) h)
Step-Delivered (crashes p sent outbox log) h =
    All-grows log _ outbox (publish_all-grows p sent log) h
Step-Delivered (recovers now outbox log) h =
    All-map (RowHolds log) _ outbox
      (λ r a.
        if_intro (RowHolds log) (is_stuck now r) (record r { status = OutboxStatus.pending }) r
          (λ _. tt) (λ _. a))
      h
Step-Delivered (cleans now outbox log) h = All-filter (RowHolds log) _ outbox h

-- At-least-once delivery: from an empty table, whatever writers, relays, crashes and maintenance
-- jobs do and in whatever order, each row that is marked published has a message which Kafka has
-- acknowledged, and each row that is marked failed has used up its ten retries.
pub relay_delivers : {s : List OutboxRow × List Message} → Reach ([], []) s → Delivered s
relay_delivers stays = tt
relay_delivers (then_step r step) = Step-Delivered step (relay_delivers r)
