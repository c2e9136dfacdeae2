-- ===== src/Activity/Uptake.antt =====
-- The activity consumer on an event that the services wrote: `process` raises nothing, and its rows
-- are inserted unless they are there.
use miniwallet.Base.{ℕ, ◌≡◌, ◌≢◌, refl, ◌∙◌, List, [], ◌∷◌, false, arith, All, IsOneOf}
use miniwallet.Errors.{Result, ok, raise, ◌>>=◌}
use miniwallet.Events.{EventEnvelope}
use miniwallet.Events.Parse.{Parsed, parse_event}
use miniwallet.Db.{Db, OutboxRow}
use miniwallet.Activity.{
  TransactionActivity, Store, rows_of, has_row, insert_activity, insert_all, silenced, process,
}
use miniwallet.Activity.Replay.{event_rows}
use miniwallet.Activity.CatchUp.{
  silenced-held, Consumes, begins, applies, redelivers, goes_on, Consumes-AreHeld, process-held,
  event_rows-ok,
}
use miniwallet.Activity.Readable.{AreInsertable, IsReadable}

-- No row of the list is in the table.
abbrev AreAbsent : List TransactionActivity → List TransactionActivity → Type 0
AreAbsent rows table =
    All (λ (t : TransactionActivity). has_row t.event_id t.account_id table ≡ false) rows

AreAbsent-cons :
    (t : TransactionActivity) (rows table : List TransactionActivity)
    → All (λ (u : TransactionActivity). t.account_id ≢ u.account_id) rows
    → AreAbsent rows table
    → AreAbsent rows (t ∷ table)
AreAbsent-cons t [] table ne h = tt
AreAbsent-cons t (u ∷ rows) table (ne, nes) (h, hs) =
    (ground (arith, ne, h), AreAbsent-cons t rows table nes hs)

insert_all-ok :
    (event : ℕ) (rows : List TransactionActivity) (s : Store)
    → AreInsertable s.db event rows
    → AreAbsent rows s.activity
    → (s' : Store) × (insert_all rows s ≡ ok s')
unfolding insert_all insert_activity
insert_all-ok event [] s fits new = (s, refl)
insert_all-ok event (t ∷ rows) s (_, known, apart, fits) (new, news) =
    let s₁ : Store = record s { activity = t ∷ s.activity } in
    let (s', h) = insert_all-ok event rows s₁ fits (AreAbsent-cons t rows s.activity apart news) in
    (s', ground (arith, h, known, new))

-- A parsed event goes on to the insertion of its rows.
parsed-read :
    (envelope : EventEnvelope) (x : Result Parsed) (s : Store) {rows : List TransactionActivity}
    → (x >>= rows_of envelope) ≡ ok rows
    → (x >>= λ p. rows_of envelope p >>= λ l. silenced s (insert_all l s))
      ≡ silenced s (insert_all rows s)
parsed-read envelope (ok p) s h = rw h refl
parsed-read envelope (raise e) s h = absurd (ground (arith, h))

process-read :
    (envelope : EventEnvelope) (s : Store) {rows : List TransactionActivity}
    → (parse_event envelope >>= rows_of envelope) ≡ ok rows
    → process envelope s ≡ silenced s (insert_all rows s)
unfolding process
process-read envelope s h = parsed-read envelope (parse_event envelope) s h

-- An event that was applied changes nothing when it comes again.
pub process-again :
    (s : Store) (r : OutboxRow) {l : List OutboxRow} {m : Store}
    → Consumes s l m
    → IsOneOf r l
    → IsReadable m.db r
    → process r.payload m ≡ ok m
process-again s r {m = m} c mem h =
    process-read r.payload m h.read
    ∙ silenced-held (event_rows r.payload) m (Consumes-AreHeld s r c mem)

-- Rows of another event have other identifiers.
insert_all-other :
    (db : Db) (e x a : ℕ) (rows : List TransactionActivity) (s : Store) {s' : Store}
    → AreInsertable db x rows
    → e ≢ x
    → insert_all rows s ≡ ok s'
    → has_row e a s.activity ≡ false
    → has_row e a s'.activity ≡ false
unfolding insert_all insert_activity
insert_all-other db e x a [] s {s'} fits ne h new =
    let same : s' ≡ s = ground (arith, h) in rw same new
insert_all-other db e x a (t ∷ rows) s {s'} (same, _, _, fits) ne h new =
    let s₁ : Store = record s { activity = t ∷ s.activity } in
    let later : insert_all rows s₁ ≡ ok s' = ground (arith, h) in
    let absent : has_row e a s₁.activity ≡ false = ground (arith, same, ne, new) in
    insert_all-other db e x a rows s₁ fits ne later absent

-- The table has no row of an event that was not applied.
Consumes-absent :
    (s : Store) (db : Db) (e a : ℕ) {l : List OutboxRow} {m : Store}
    → Consumes s l m
    → All (IsReadable db) l
    → All (λ (x : OutboxRow). e ≢ x.payload.event_id) l
    → has_row e a m.activity ≡ false
Consumes-absent s db e a (begins empty) readable ne = rw empty refl
Consumes-absent s db e a (applies r {m = m} c read h) (readable, readables) (ne, nes) =
    insert_all-other db e r.payload.event_id a _ m
      (rw (event_rows-ok r.payload read) at readable.insertable) ne h
      (Consumes-absent s db e a c readables nes)
Consumes-absent s db e a (redelivers r {m = m} c old h) readable ne =
    rw (process-held r.payload m (Consumes-AreHeld s r c old) h)
      (Consumes-absent s db e a c readable ne)
Consumes-absent s db e a (goes_on _ c) readable ne = Consumes-absent s db e a c readable ne

-- An event that was not applied yet is applied.
pub record Applied (s : Store) (r : OutboxRow) (l : List OutboxRow) (m : Store) : Type 0 where
  pub after : Store
  pub processed : process r.payload m ≡ ok after
  pub consumes : Consumes s (r ∷ l) after

pub process-new :
    (s : Store) (r : OutboxRow) {l : List OutboxRow} {m : Store}
    → Consumes s l m
    → IsReadable m.db r
    → All (IsReadable m.db) l
    → All (λ (x : OutboxRow). r.payload.event_id ≢ x.payload.event_id) l
    → Applied s r l m
process-new s r {l} {m} c h hs ne =
    let e = r.payload.event_id in
    let rows = event_rows r.payload in
    let absent = rows_absent rows h.insertable in
    let (m', inserted) = insert_all-ok e rows m h.insertable absent in
    record {
      after = m';
      processed = process-read r.payload m h.read ∙ (rw inserted refl);
      consumes = applies r c h.read inserted;
    }
  where
    rows_absent :
        (rows : List TransactionActivity)
        → AreInsertable m.db r.payload.event_id rows
        → AreAbsent rows m.activity
    rows_absent [] fits = tt
    rows_absent (t ∷ rows) (same, _, _, fits) = (
      rw same (Consumes-absent s m.db r.payload.event_id t.account_id c hs ne),
      rows_absent rows fits,
    )
