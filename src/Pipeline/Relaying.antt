-- ===== src/Pipeline/Relaying.antt =====
-- What becomes of a written event: it waits in the table, Kafka has it, or it was given up.
use mathlib.Core.List.{Mem}
use miniwallet.Base.{
  ℕ, ◌≡◌, refl, Bool, true, not, ◌&&◌, ◌==◌, String, Option, List, [], ◌∷◌, ◌++◌, All-append, any,
  any-intro, any-true, IsOneOf, Bool-cases, inl, inr, ◌⊎◌, arith,
}
use miniwallet.Schemas.{HashInput}
use miniwallet.Events.{EventEnvelope}
use miniwallet.Db.{Db, OutboxRow}
use miniwallet.Outbox.{message, publish_all, contains_id, is_published}
use miniwallet.Outbox.Delivery as Delivery
use miniwallet.Outbox.Delivery.{RowHolds, StatusHolds, Delivered, Step-Delivered, publish_all-grows}
use miniwallet.Outbox.Rounds.{confirm-keeps}
use miniwallet.Pipeline.{
  Line, writes, claims, confirms, crashes, recovers, cleans, reads, Run, starts, steps,
}
use miniwallet.Pipeline.Traces.{Run-IsTraced, Run-AreDistinct}
use miniwallet.Pipeline.Whereabouts.{
  new_events-Hold, contains-left, contains-right, claim-keeps, recover-keeps, published_in_log,
  cleaned, IsAccounted,
}

after_write :
    (s : Line) (db' : Db) (events : List OutboxRow) (r : OutboxRow)
    → IsAccounted s r
    → IsAccounted (record s { db = db'; table = events ++ s.table }) r
after_write s db' events r (inl k) = inl k
after_write s db' events r (inr (inl k)) = inr (inl (contains-right r.id events s.table k))
after_write s db' events r (inr (inr k)) = inr (inr k)

written_or_new :
    (r : OutboxRow) (events history : List OutboxRow)
    → IsOneOf r (events ++ history)
    → IsOneOf r events ⊎ IsOneOf r history
written_or_new r [] history mem = inr mem
written_or_new r (x ∷ events) history (inl e) = inl (inl e)
written_or_new r (x ∷ events) history (inr mem) = elim (written_or_new r events history mem) [
  | inl k ↦ inl (inr k)
  | inr k ↦ inr k
]

-- A row that waits for the relay, or is on its way.
abbrev pub is_waiting : List OutboxRow → ℕ → Bool
is_waiting table i = any (λ (x : OutboxRow). x.id == i && not (is_published x.status)) table

module _ (sha256 : HashInput → String) (json_dumps : EventEnvelope → String)
    (json_loads : String → Option EventEnvelope) (int : String → Option ℕ) (str : ℕ → String) where
  abbrev Runs : Line → Type 0
  Runs s = Run sha256 json_dumps json_loads int str s

  pub Run-Delivered : {s : Line} → Runs s → Delivered (s.table, s.log)
  Run-Delivered starts = tt
  Run-Delivered (steps {s = s} r (writes events step e _)) =
      All-append (RowHolds s.log) events s.table (new_events-Hold sha256 events s.log step e)
        (Run-Delivered r)
  Run-Delivered (steps {s = s} r (claims locked)) =
      Step-Delivered (Delivery.claims locked s.table s.log) (Run-Delivered r)
  Run-Delivered (steps {s = s} r (confirms p batch _)) =
      Step-Delivered (Delivery.confirms p batch s.table s.log) (Run-Delivered r)
  Run-Delivered (steps {s = s} r (crashes p batch _)) =
      Step-Delivered (Delivery.crashes p batch s.table s.log) (Run-Delivered r)
  Run-Delivered (steps {s = s} r (recovers now)) =
      Step-Delivered (Delivery.recovers now s.table s.log) (Run-Delivered r)
  Run-Delivered (steps {s = s} r (cleans now)) =
      Step-Delivered (Delivery.cleans now s.table s.log) (Run-Delivered r)
  Run-Delivered (steps r (reads _ _)) = Run-Delivered r

  Run-IsAccounted : {s : Line} → Runs s → (r : OutboxRow) → IsOneOf r s.db.outbox → IsAccounted s r
  Run-IsAccounted starts r mem = absurd mem
  Run-IsAccounted (steps {s = s} run (writes {db' = db'} events _ e _)) r mem =
      elim (written_or_new r events s.db.outbox (rw e at mem)) [
        | inl k ↦ inr (inl (contains-left r.id r events s.table k refl))
        | inr k ↦ after_write s db' events r (Run-IsAccounted run r k)
      ]
  Run-IsAccounted (steps {s = s} run (claims locked)) r mem = elim (Run-IsAccounted run r mem) [
    | inl k ↦ inl k
    | inr (inl k) ↦ inr (inl (claim-keeps locked r.id s.table k))
    | inr (inr k) ↦ inr (inr k)
  ]
  Run-IsAccounted (steps {s = s} run (confirms p batch _)) r mem =
      elim (Run-IsAccounted run r mem) [
        | inl k ↦ inl (publish_all-grows p batch s.log (message r) k)
        | inr (inl k) ↦ inr (inl (confirm-keeps r.id (publish_all p batch s.log).0 s.table k))
        | inr (inr k) ↦ inr (inr k)
      ]
  Run-IsAccounted (steps {s = s} run (crashes p batch _)) r mem = elim (Run-IsAccounted run r mem) [
    | inl k ↦ inl (publish_all-grows p batch s.log (message r) k)
    | inr k ↦ inr k
  ]
  Run-IsAccounted (steps {s = s} run (recovers now)) r mem = elim (Run-IsAccounted run r mem) [
    | inl k ↦ inl k
    | inr (inl k) ↦ inr (inl (recover-keeps now r.id s.table k))
    | inr (inr k) ↦ inr (inr k)
  ]
  Run-IsAccounted (steps {s = s} run (cleans now)) r mem = elim (Run-IsAccounted run r mem) [
    | inl k ↦ inl k
    | inr (inl k) ↦
        cleaned s r (Run-IsTraced sha256 json_dumps json_loads int str run)
          (Run-AreDistinct sha256 json_dumps json_loads int str run) (Run-Delivered run) mem now k
    | inr (inr k) ↦ inr (inr (contains-right r.id _ s.given_up k))
  ]
  Run-IsAccounted (steps run (reads _ _)) r mem = Run-IsAccounted run r mem

  -- No event is lost between the services and Kafka: whatever transactions, relays, crashes and
  -- maintenance jobs do and in whatever order, Kafka has acknowledged the message of each event that
  -- was written, or its row is in the table and not published, or it was removed after it had failed.
  pub every_event_accounted :
      {s : Line} (r : OutboxRow)
      → Runs s
      → IsOneOf r s.db.outbox
      → Mem (message r) s.log
        ⊎ ((is_waiting s.table r.id ≡ true) ⊎ (contains_id s.given_up r.id ≡ true))
  every_event_accounted {s} r run mem = elim (Run-IsAccounted run r mem) [
    | inl k ↦ inl k
    | inr (inl k) ↦ in_table_or_log k
    | inr (inr k) ↦ inr (inr k)
  ]
    where
      in_table_or_log :
          contains_id s.table r.id ≡ true
          → Mem (message r) s.log
            ⊎ ((is_waiting s.table r.id ≡ true) ⊎ (contains_id s.given_up r.id ≡ true))
      in_table_or_log k =
          let (x, in_table, e) = any-true (λ (y : OutboxRow). y.id == r.id) s.table k in
          elim (Bool-cases (is_published x.status)) [
            | inl yes_p ↦ inl (
                published_in_log s r (Run-IsTraced sha256 json_dumps json_loads int str run)
                  (Run-AreDistinct sha256 json_dumps json_loads int str run) (Run-Delivered run) mem
                  x in_table e yes_p)
            | inr no_p ↦ inr (
                inl (
                  any-intro (λ (y : OutboxRow). y.id == r.id && not (is_published y.status)) x
                    s.table in_table (ground (arith, e, no_p))))
          ]
