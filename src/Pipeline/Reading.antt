-- ===== src/Pipeline/Reading.antt =====
-- The consumer at the end of the way: it takes every message that the relay has sent.
use miniwallet.Base.{
  ℕ, ◌≡◌, ◌≢◌, refl, sym, ap, Bool, true, false, ◌==◌, String, Option, some, List, [], ◌∷◌, ◌++◌,
  All, All-append, All-each, All-imp, All-intro, any, any-true, any-false, IsOneOf, IsOneOf-append,
  Bool-cases, inl, inr, arith,
}
use miniwallet.Errors.{ok}
use miniwallet.Schemas.{HashInput}
use miniwallet.Events.{EventEnvelope}
use miniwallet.Db.{Db, OutboxRow}
use miniwallet.Outbox.{Message, message}
use miniwallet.Consumers.{handle_message}
use miniwallet.Activity.{Store, process}
use miniwallet.Activity.CatchUp.{Consumes, begins, goes_on}
use miniwallet.Activity.Readable.{IsReadable, All-IsReadable-keeps}
use miniwallet.Activity.Uptake.{process-again, process-new}
use miniwallet.System as System
use miniwallet.System.{Step-Emits}
use miniwallet.Pipeline.{
  Line, writes, claims, confirms, crashes, recovers, cleans, reads, Run, starts, steps, AreDistinct,
  AreApart, started, store, handled, after_reading,
}
use miniwallet.Pipeline.Origin.{IsOf, same_row}
use miniwallet.Pipeline.Traces.{Run-IsTraced, Run-AreDistinct, Run-Reach}

-- Every event that was written is one that the activity consumer can read, and its rows are for
-- accounts that differ and are there.
pub Reach-IsReadable :
    (sha256 : HashInput → String) {db : Db} → System.Reach sha256 db → All (IsReadable db) db.outbox
Reach-IsReadable sha256 System.starts = tt
Reach-IsReadable sha256 (System.steps {db = db} {db' = db'} r step) =
    let e = Step-Emits sha256 step in
    let all =
      All-append (IsReadable db') e.events db.outbox e.readable
        (All-IsReadable-keeps db.outbox e.accounts (Reach-IsReadable sha256 r)) in
    rw (sym e.outbox) at all

-- The events that the consumer has applied, each once, and that tell of all messages that it has
-- committed.
pub record IsAbreast (s : Line) : Type 0 where
  pub applied : List OutboxRow
  pub consumes : Consumes (store started) applied (store s)
  pub written : All (λ (r : OutboxRow). IsOneOf r s.db.outbox) applied
  pub distinct : AreDistinct applied
  pub told : All (IsOf applied) s.committed
  pub quiet : s.sent ≡ []

-- An event that is like none of the applied ones.
new_event :
    (history l : List OutboxRow) (r : OutboxRow)
    → AreDistinct history
    → IsOneOf r history
    → All (λ (x : OutboxRow). IsOneOf x history) l
    → any (λ (x : OutboxRow). x.payload.event_id == r.payload.event_id) l ≡ false
    → All (AreApart r) l
new_event history l r distinct mem written h = All-intro (AreApart r) l (λ x k.
    let other = any-false (λ (y : OutboxRow). y.payload.event_id == r.payload.event_id) x l h k in
    let ne : r.payload.event_id ≢ x.payload.event_id = λ e. ground (arith, other, e) in
    (
      λ e. ne (
          ap (λ (y : OutboxRow). y.payload.event_id)
            (same_row history r x distinct mem (All-each _ x l written k) (inl e))),
      ne,
    ))

IsOf-cons : (r : OutboxRow) (l : List OutboxRow) (m : Message) → IsOf l m → IsOf (r ∷ l) m
IsOf-cons r l m h = record { event = h.event; written = inr h.written; tells = h.tells }

module _ (sha256 : HashInput → String) (json_dumps : EventEnvelope → String)
    (json_loads : String → Option EventEnvelope) (int : String → Option ℕ) (str : ℕ → String) where
  -- A message whose event `process` takes is committed, and nothing is sent.
  handled-ok :
      (m : Message) (s s' : Store)
      → json_loads (json_dumps m.payload) ≡ some m.payload
      → process m.payload s ≡ ok s'
      → handled sha256 json_dumps json_loads int str m s
        ≡ record { state = s'; sent = []; committed = true }
  unfolding handle_message
  handled-ok m s s' json h = rw (json, h) refl

  read_again :
      (s : Line) (r : OutboxRow)
      → json_loads (json_dumps r.payload) ≡ some r.payload
      → IsReadable s.db r
      → (a : IsAbreast s) → IsOneOf r a.applied
      → IsAbreast (after_reading sha256 json_dumps json_loads int str s (message r))
  read_again s r json readable a mem =
      let taken = process-again (store started) r a.consumes mem readable in
      rw (handled-ok (message r) (store s) (store s) json taken) (record {
        applied = a.applied;
        consumes = a.consumes;
        written = a.written;
        distinct = a.distinct;
        told = (record { event = r; written = mem; tells = refl }, a.told);
        quiet = a.quiet;
      })

  read_new :
      (s : Line) (r : OutboxRow) (a : IsAbreast s)
      → json_loads (json_dumps r.payload) ≡ some r.payload
      → IsOneOf r s.db.outbox
      → IsReadable s.db r
      → All (IsReadable s.db) a.applied
      → All (AreApart r) a.applied
      → IsAbreast (after_reading sha256 json_dumps json_loads int str s (message r))
  read_new s r a json mem readable readables apart =
      let other =
        All-imp (AreApart r) (λ (x : OutboxRow). r.payload.event_id ≢ x.payload.event_id) a.applied
          (λ x (_, k). k) apart in
      let new = process-new (store started) r a.consumes readable readables other in
      rw (handled-ok (message r) (store s) new.after json new.processed) (record {
        applied = r ∷ a.applied;
        consumes = goes_on s.db new.consumes;
        written = (mem, a.written);
        distinct = (apart, a.distinct);
        told = (
          record { event = r; written = inl refl; tells = refl },
          All-imp (IsOf a.applied) (IsOf (r ∷ a.applied)) s.committed (IsOf-cons r a.applied)
              a.told,
        );
        quiet = a.quiet;
      })

  -- `json.loads` reads what `json.dumps` made of the events that were written.
  abbrev pub ReadsJson : List OutboxRow → Type 0
  ReadsJson history =
      (r : OutboxRow) → IsOneOf r history → json_loads (json_dumps r.payload) ≡ some r.payload

  read_by_event :
      (s : Line) (r : OutboxRow)
      → Run sha256 json_dumps json_loads int str s
      → IsAbreast s
      → ReadsJson s.db.outbox
      → IsOneOf r s.db.outbox
      → IsAbreast (after_reading sha256 json_dumps json_loads int str s (message r))
  read_by_event s r run a json mem =
      let distinct = Run-AreDistinct sha256 json_dumps json_loads int str run in
      let reach = Run-Reach sha256 json_dumps json_loads int str run in
      let all = Reach-IsReadable sha256 reach in
      let readable = All-each (IsReadable s.db) r s.db.outbox all mem in
      let same : OutboxRow → Bool = λ (x : OutboxRow). x.payload.event_id == r.payload.event_id in
      elim (Bool-cases (any same a.applied)) [
        | inl found ↦
            let (x, applied, e) = any-true same a.applied found in
            let written =
              All-each (λ (y : OutboxRow). IsOneOf y s.db.outbox) x a.applied a.written applied in
            let eq = same_row s.db.outbox x r distinct written mem (inr (ground (arith, e))) in
            read_again s r (json r mem) readable a (rw eq at applied)
        | inr none_found ↦
            read_new s r a (json r mem) mem readable
              (All-imp (λ (y : OutboxRow). IsOneOf y s.db.outbox) (IsReadable s.db) a.applied
                (λ y k. All-each (IsReadable s.db) y s.db.outbox all k) a.written)
              (new_event s.db.outbox a.applied r distinct mem a.written none_found)
      ]

  -- The services go on.
  after_write :
      (s : Line) (db' : Db) (events table : List OutboxRow)
      → db'.outbox ≡ events ++ s.db.outbox
      → IsAbreast s
      → IsAbreast (record s { db = db'; table = table })
  after_write s db' events table e a = record {
    applied = a.applied;
    consumes = goes_on db' a.consumes;
    written =
        All-imp (λ (r : OutboxRow). IsOneOf r s.db.outbox) (λ (r : OutboxRow). IsOneOf r db'.outbox)
          a.applied (λ r k. rw e (IsOneOf-append r events s.db.outbox k)) a.written;
    distinct = a.distinct;
    told = a.told;
    quiet = a.quiet;
  }

  -- The relay goes on.
  same_reader :
      (s : Line) (table held given_up : List OutboxRow) (log : List Message)
      → IsAbreast s
      → IsAbreast (record s { table = table; held = held; given_up = given_up; log = log })
  same_reader s table held given_up log a = record {
    applied = a.applied;
    consumes = a.consumes;
    written = a.written;
    distinct = a.distinct;
    told = a.told;
    quiet = a.quiet;
  }

  pub Run-IsAbreast :
      {s : Line} → Run sha256 json_dumps json_loads int str s → ReadsJson s.db.outbox → IsAbreast s
  Run-IsAbreast starts json = record {
    applied = [];
    consumes = begins refl;
    written = tt;
    distinct = tt;
    told = tt;
    quiet = refl;
  }
  Run-IsAbreast (steps {s = s} run (writes {db' = db'} events _ e _)) json =
      after_write s db' events (events ++ s.table) e
        (Run-IsAbreast run (λ r mem. json r (rw e (IsOneOf-append r events s.db.outbox mem))))
  Run-IsAbreast (steps {s = s} run (claims _)) json = same_reader s _ _ _ _ (Run-IsAbreast run json)
  Run-IsAbreast (steps {s = s} run (confirms _ _ _)) json =
      same_reader s _ _ _ _ (Run-IsAbreast run json)
  Run-IsAbreast (steps {s = s} run (crashes _ _ _)) json =
      same_reader s _ _ _ _ (Run-IsAbreast run json)
  Run-IsAbreast (steps {s = s} run (recovers _)) json =
      same_reader s _ _ _ _ (Run-IsAbreast run json)
  Run-IsAbreast (steps {s = s} run (cleans _)) json = same_reader s _ _ _ _ (Run-IsAbreast run json)
  Run-IsAbreast (steps {s = s} run (reads m mem)) json =
      let traced = Run-IsTraced sha256 json_dumps json_loads int str run in
      let of_event = All-each (IsOf s.db.outbox) m s.log traced.log mem in
      rw of_event.tells at
        (read_by_event s of_event.event run (Run-IsAbreast run json) json of_event.written)
