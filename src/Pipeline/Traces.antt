-- ===== src/Pipeline/Traces.antt =====
-- The origin of every row and message, over any run.
use miniwallet.Base.{ℕ, String, Option, ◌++◌, All-append, All-intro, IsOneOf-left, All-imp}
use miniwallet.Schemas.{HashInput}
use miniwallet.Events.{EventEnvelope}
use miniwallet.Outbox.Delivery.{All-confirm}
use miniwallet.System as System
use miniwallet.Pipeline.{
  Line, Step, writes, claims, confirms, crashes, recovers, cleans, reads, Run, starts, steps,
  AreDistinct,
}
use miniwallet.Pipeline.Origin.{
  IsFrom, IsOf, IsTraced, publish_all-IsFrom, publish_all-IsOf, claimed-IsFrom, claim_batch-IsFrom,
  recover_stuck_rows-IsFrom, cleanup_published_rows-IsFrom, own_event, IsFrom-grows, IsOf-grows,
  batch-IsFrom,
}

module _ (sha256 : HashInput → String) (json_dumps : EventEnvelope → String)
    (json_loads : String → Option EventEnvelope) (int : String → Option ℕ) (str : ℕ → String) where
  Step-IsTraced :
      {s t : Line} → Step sha256 json_dumps json_loads int str s t → IsTraced s → IsTraced t
  Step-IsTraced {s} (writes events _ e _) h =
      let history = s.db.outbox in
      rw e (record {
        table =
            All-append (IsFrom (events ++ history)) events s.table
              (All-intro (IsFrom (events ++ history)) events
                (λ r mem. own_event (events ++ history) r (IsOneOf-left r events history mem)))
              (All-imp (IsFrom history) (IsFrom (events ++ history)) s.table
                (IsFrom-grows events history) h.table);
        held =
            All-imp (IsFrom history) (IsFrom (events ++ history)) s.held
              (IsFrom-grows events history) h.held;
        log =
            All-imp (IsOf history) (IsOf (events ++ history)) s.log (IsOf-grows events history)
              h.log;
      })
  Step-IsTraced {s} (claims locked) h = record {
    table = claim_batch-IsFrom s.db.outbox locked s.table h.table;
    held =
        All-append (IsFrom s.db.outbox) _ s.held (claimed-IsFrom s.db.outbox locked s.table h.table)
          h.held;
    log = h.log;
  }
  Step-IsTraced {s} (confirms p batch mem) h =
      let from = batch-IsFrom s.db.outbox s.held batch h.held mem in
      record {
        table =
            All-confirm (IsFrom s.db.outbox) _ s.table
              (publish_all-IsFrom s.db.outbox p batch s.log from) h.table;
        held = h.held;
        log = publish_all-IsOf s.db.outbox p batch s.log from h.log;
      }
  Step-IsTraced {s} (crashes p batch mem) h = record {
    table = h.table;
    held = h.held;
    log =
        publish_all-IsOf s.db.outbox p batch s.log
          (batch-IsFrom s.db.outbox s.held batch h.held mem) h.log;
  }
  Step-IsTraced {s} (recovers now) h = record {
    table = recover_stuck_rows-IsFrom s.db.outbox now s.table h.table;
    held = h.held;
    log = h.log;
  }
  Step-IsTraced {s} (cleans now) h = record {
    table = cleanup_published_rows-IsFrom s.db.outbox now s.table h.table;
    held = h.held;
    log = h.log;
  }
  Step-IsTraced {s} (reads m mem) h = record { table = h.table; held = h.held; log = h.log }

  -- Every row that a relay holds or that is in the table is one that a transaction wrote, but for the
  -- relay's columns, and every message in Kafka is that of such a row.
  pub Run-IsTraced : {s : Line} → Run sha256 json_dumps json_loads int str s → IsTraced s
  Run-IsTraced starts = record { table = tt; held = tt; log = tt }
  Run-IsTraced (steps r step) = Step-IsTraced step (Run-IsTraced r)

  pub Run-AreDistinct :
      {s : Line} → Run sha256 json_dumps json_loads int str s → AreDistinct s.db.outbox
  Run-AreDistinct starts = tt
  Run-AreDistinct (steps r (writes _ _ _ d)) = d
  Run-AreDistinct (steps r (claims _)) = Run-AreDistinct r
  Run-AreDistinct (steps r (confirms _ _ _)) = Run-AreDistinct r
  Run-AreDistinct (steps r (crashes _ _ _)) = Run-AreDistinct r
  Run-AreDistinct (steps r (recovers _)) = Run-AreDistinct r
  Run-AreDistinct (steps r (cleans _)) = Run-AreDistinct r
  Run-AreDistinct (steps r (reads _ _)) = Run-AreDistinct r

  pub Run-Reach : {s : Line} → Run sha256 json_dumps json_loads int str s → System.Reach sha256 s.db
  Run-Reach starts = System.starts
  Run-Reach (steps r (writes _ step _ _)) = System.steps (Run-Reach r) step
  Run-Reach (steps r (claims _)) = Run-Reach r
  Run-Reach (steps r (confirms _ _ _)) = Run-Reach r
  Run-Reach (steps r (crashes _ _ _)) = Run-Reach r
  Run-Reach (steps r (recovers _)) = Run-Reach r
  Run-Reach (steps r (cleans _)) = Run-Reach r
  Run-Reach (steps r (reads _ _)) = Run-Reach r
