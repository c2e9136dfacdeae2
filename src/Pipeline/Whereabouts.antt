-- ===== src/Pipeline/Whereabouts.antt =====
-- Where a written event is: what one step of the relay makes of it.
use mathlib.Core.List.{Mem}
use miniwallet.Base.{
  ℕ, ◌≡◌, refl, sym, ◌∙◌, ap, Bool, true, not, ◌&&◌, ◌==◌, String, List, [], ◌∷◌, ◌++◌, All,
  All-each, All-imp, any-intro, any-true, IsOneOf, IsOneOf-left, IsOneOf-filter, Bool-cases, inl,
  inr, ◌⊎◌, if_intro, filter, arith,
}
use miniwallet.Schemas.{HashInput}
use miniwallet.Models.{OutboxStatus}
use miniwallet.Db.{Db, OutboxRow}
use miniwallet.Outbox.{
  Message, message, claim_batch, select_batch, set_publishing, contains_id, recover_stuck_rows,
  is_stuck, cleanup_published_rows, is_deletable, is_published, is_failed,
}
use miniwallet.Outbox.Delivery.{RowHolds, StatusHolds, Delivered}
use miniwallet.Outbox.Rounds.{map-keeps, deletable-ended}
use miniwallet.Activity.Readable.{Emits-events}
use miniwallet.System as System
use miniwallet.System.{Step-Emits}
use miniwallet.Pipeline.{Line, AreDistinct}
use miniwallet.Pipeline.Origin.{IsFrom, IsTraced, same_row}

-- A new event waits.
waiting-Holds :
    (log : List Message) (r : OutboxRow) → r.status ≡ OutboxStatus.pending → RowHolds log r
waiting-Holds log r e = rw e tt

pub new_events-Hold :
    (sha256 : HashInput → String) {db db' : Db} (events : List OutboxRow) (log : List Message)
    → System.Step sha256 db db'
    → db'.outbox ≡ events ++ db.outbox
    → All (RowHolds log) events
new_events-Hold sha256 events log step h =
    let e = Step-Emits sha256 step in
    All-imp (λ (r : OutboxRow). r.status ≡ OutboxStatus.pending) (RowHolds log) events
      (waiting-Holds log) (rw (Emits-events e events h) at e.waiting)

pub contains-left :
    (i : ℕ) (r : OutboxRow) (k l : List OutboxRow)
    → IsOneOf r k
    → r.id ≡ i
    → contains_id (k ++ l) i ≡ true
contains-left i r k l mem e =
    any-intro (λ (x : OutboxRow). x.id == i) r (k ++ l) (IsOneOf-left r k l mem) (ground (arith, e))

pub contains-right :
    (i : ℕ) (k l : List OutboxRow) → contains_id l i ≡ true → contains_id (k ++ l) i ≡ true
contains-right i [] l h = h
contains-right i (r ∷ k) l h = ground (arith, contains-right i k l h)

pub claim-keeps :
    (locked : ℕ → Bool) (i : ℕ) (table : List OutboxRow)
    → contains_id table i ≡ true
    → contains_id (claim_batch locked table).1 i ≡ true
unfolding claim_batch
claim-keeps locked i table h =
    map-keeps i _ table
      (λ r.
        if_intro (λ (x : OutboxRow). x.id ≡ r.id) (contains_id (select_batch locked table) r.id)
          (set_publishing r) r (λ _. refl) (λ _. refl))
      h

pub recover-keeps :
    (now i : ℕ) (table : List OutboxRow)
    → contains_id table i ≡ true
    → contains_id (recover_stuck_rows now table) i ≡ true
unfolding recover_stuck_rows
recover-keeps now i table h =
    map-keeps i _ table
      (λ r.
        if_intro (λ (x : OutboxRow). x.id ≡ r.id) (is_stuck now r)
          (record r { status = OutboxStatus.pending }) r (λ _. refl) (λ _. refl))
      h

published-Holds :
    (log : List Message) (r : OutboxRow) (st : OutboxStatus)
    → is_published st ≡ true
    → StatusHolds log r st
    → Mem (message r) log
published-Holds log r OutboxStatus.published e h = h
published-Holds log r OutboxStatus.pending e h = absurd (ground (arith, e))
published-Holds log r OutboxStatus.publishing e h = absurd (ground (arith, e))
published-Holds log r OutboxStatus.failed e h = absurd (ground (arith, e))

-- A row of the table with the id of a written one has its message.
row_of-message :
    (history table : List OutboxRow) (r x : OutboxRow)
    → AreDistinct history
    → All (IsFrom history) table
    → IsOneOf r history
    → IsOneOf x table
    → (x.id == r.id) ≡ true
    → message x ≡ message r
row_of-message history table r x distinct from written mem e =
    let f = All-each (IsFrom history) x table from mem in
    let same : f.event.id ≡ r.id = f.same_id ∙ ground (arith, e) in
    sym f.same_message
    ∙ ap message (same_row history f.event r distinct f.written written (inl same))

-- Kafka has the event's message, or its row is in the table, or it failed and was removed.
abbrev pub IsAccounted : Line → OutboxRow → Type 0
IsAccounted s r =
    Mem (message r) s.log
    ⊎ ((contains_id s.table r.id ≡ true) ⊎ (contains_id s.given_up r.id ≡ true))

-- A row of the table, one that is published, and one that has failed.
module _ (s : Line) (r : OutboxRow) (traced : IsTraced s) (distinct : AreDistinct s.db.outbox)
    (delivered : Delivered (s.table, s.log)) (written : IsOneOf r s.db.outbox) where
  pub published_in_log :
      (x : OutboxRow)
      → IsOneOf x s.table
      → (x.id == r.id) ≡ true
      → is_published x.status ≡ true
      → Mem (message r) s.log
  published_in_log x mem e h =
      let same = row_of-message s.db.outbox s.table r x distinct traced.table written mem e in
      rw same at
        (published-Holds s.log x x.status h (All-each (RowHolds s.log) x s.table delivered mem))

  removed :
      (now : ℕ) (x : OutboxRow)
      → IsOneOf x s.table
      → (x.id == r.id) ≡ true
      → is_deletable now x ≡ true
      → IsAccounted
          (record s {
            table = cleanup_published_rows now s.table;
            given_up =
                filter (λ (y : OutboxRow). is_deletable now y && is_failed y.status) s.table
                ++ s.given_up;
          })
          r
  removed now x mem e old = elim (Bool-cases (is_published x.status)) [
    | inl yes_p ↦ inl (published_in_log x mem e yes_p)
    | inr no_p ↦
        let ended = deletable-ended now x old in
        let both : (is_deletable now x && is_failed x.status) ≡ true =
          ground (arith, old, ended, no_p) in
        let p : OutboxRow → Bool = λ (y : OutboxRow). is_deletable now y && is_failed y.status in
        inr (
          inr (
            contains-left r.id x (filter p s.table) s.given_up (IsOneOf-filter p x s.table mem both)
              (ground (arith, e))))
  ]

  pub cleaned :
      (now : ℕ)
      → contains_id s.table r.id ≡ true
      → IsAccounted
          (record s {
            table = cleanup_published_rows now s.table;
            given_up =
                filter (λ (y : OutboxRow). is_deletable now y && is_failed y.status) s.table
                ++ s.given_up;
          })
          r
  unfolding cleanup_published_rows
  cleaned now h =
      let (x, mem, e) = any-true (λ (y : OutboxRow). y.id == r.id) s.table h in
      elim (Bool-cases (is_deletable now x)) [
        | inl old ↦ removed now x mem e old
        | inr young ↦
            let p : OutboxRow → Bool = λ (y : OutboxRow). not (is_deletable now y) in
            inr (
              inl (
                any-intro (λ (y : OutboxRow). y.id == r.id) x (filter p s.table)
                  (IsOneOf-filter p x s.table mem (rw young refl)) e))
      ]
