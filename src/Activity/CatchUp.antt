-- ===== src/Activity/CatchUp.antt =====
-- The consumer after it has seen the events of the outbox, redeliveries included.
use miniwallet.Base.{
  IsOneOf, ℕ, ◌≡◌, refl, ◌∙◌, List, [], ◌∷◌, ◌++◌, true, ◌==◌, arith, Bool-cases, inl, inr, All,
}
use miniwallet.Base.Int.{ℤ, int_laws}
use miniwallet.Errors.{Result, ok, raise, ◌>>=◌}
use miniwallet.Events.{EventEnvelope}
use miniwallet.Events.Parse.{Parsed, parse_event}
use miniwallet.Models.{Direction, debit, credit}
use miniwallet.Db.{Db, OutboxRow}
use miniwallet.Ledger.{signed}
use miniwallet.Activity.{
  TransactionActivity, Store, rows_of, has_row, insert_activity, insert_all, silenced, process,
  activity_balance,
}
use miniwallet.Activity.Laws.{insert_all-has_row}
use miniwallet.Activity.Replay.{or_no_rows, event_rows, replayed}

signed_comm : (d e : Direction) (x y s : ℤ) → signed d x (signed e y s) ≡ signed e y (signed d x s)
signed_comm credit credit x y s = grind int_laws
signed_comm credit debit x y s = grind int_laws
signed_comm debit credit x y s = grind int_laws
signed_comm debit debit x y s = grind int_laws

balance_swap :
    (a : ℕ) (x y : TransactionActivity) (l : List TransactionActivity)
    → activity_balance a (x ∷ y ∷ l) ≡ activity_balance a (y ∷ x ∷ l)
balance_swap a x y l = elim (Bool-cases (x.account_id == a)) [
  | inl p ↦ elim (Bool-cases (y.account_id == a)) [
    | inl q ↦
        rw (p, q) (signed_comm x.direction y.direction x.amount y.amount (activity_balance a l))
    | inr q ↦ rw (p, q) refl
  ]
  | inr p ↦ rw p refl
]

balance_cons :
    (a : ℕ) (x : TransactionActivity) (k l : List TransactionActivity)
    → activity_balance a k ≡ activity_balance a l
    → activity_balance a (x ∷ k) ≡ activity_balance a (x ∷ l)
balance_cons a x k l h = rw h refl

pub balance_append :
    (a : ℕ) (rows k l : List TransactionActivity)
    → activity_balance a k ≡ activity_balance a l
    → activity_balance a (rows ++ k) ≡ activity_balance a (rows ++ l)
balance_append a [] k l h = h
balance_append a (x ∷ rows) k l h = balance_cons a x _ _ (balance_append a rows k l h)

pub balance_move :
    (a : ℕ) (t : TransactionActivity) (rows l : List TransactionActivity)
    → activity_balance a (rows ++ (t ∷ l)) ≡ activity_balance a (t ∷ (rows ++ l))
balance_move a t [] l = refl
balance_move a t (x ∷ rows) l =
    balance_cons a x _ (t ∷ (rows ++ l)) (balance_move a t rows l) ∙ balance_swap a x t (rows ++ l)

-- The rows that are inserted, whatever their order in the table, add their amounts.
insert_all-balance :
    (a : ℕ) (rows : List TransactionActivity) (s : Store) {s' : Store}
    → insert_all rows s ≡ ok s'
    → activity_balance a s'.activity ≡ activity_balance a (rows ++ s.activity)
unfolding insert_all insert_activity
insert_all-balance a [] s {s'} h = let same : s' ≡ s = ground (arith, h) in rw same refl
insert_all-balance a (t ∷ rows) s {s'} h =
    let s₁ : Store = record s { activity = t ∷ s.activity } in
    let later : insert_all rows s₁ ≡ ok s' = ground (arith, h) in
    insert_all-balance a rows s₁ later ∙ balance_move a t rows s.activity

-- A consumer from its empty table on: it applies the events of a list, the newest of which is the
-- first, and may at any time get one again that it has applied. The services write the other tables
-- meanwhile.
pub data Consumes (s : Store) : List OutboxRow → Store → Type 0 where
  begins : s.activity ≡ [] → Consumes s [] s
  applies :
      (r : OutboxRow) {l : List OutboxRow} {m m' : Store} {rows : List TransactionActivity}
      → Consumes s l m
      → (parse_event r.payload >>= rows_of r.payload) ≡ ok rows
      → insert_all rows m ≡ ok m'
      → Consumes s (r ∷ l) m'
  redelivers :
      (r : OutboxRow) {l : List OutboxRow} {m m' : Store}
      → Consumes s l m
      → IsOneOf r l
      → process r.payload m ≡ ok m'
      → Consumes s l m'
  goes_on :
      (db : Db) {l : List OutboxRow} {m : Store}
      → Consumes s l m
      → Consumes s l (record m { db = db })

-- All rows are in the table.
abbrev pub AreHeld : List TransactionActivity → Store → Type 0
AreHeld rows s =
    All (λ (t : TransactionActivity). has_row t.event_id t.account_id s.activity ≡ true) rows

AreHeld-insert_all :
    (held rows : List TransactionActivity) (s : Store) {s' : Store}
    → insert_all rows s ≡ ok s'
    → AreHeld held s
    → AreHeld held s'
AreHeld-insert_all [] rows s h a = tt
AreHeld-insert_all (t ∷ held) rows s h (a, rest) =
    (insert_all-has_row t.event_id t.account_id rows s a h, AreHeld-insert_all held rows s h rest)

insert_all-AreHeld :
    (rows : List TransactionActivity) (s : Store) {s' : Store}
    → insert_all rows s ≡ ok s'
    → AreHeld rows s'
unfolding insert_all insert_activity
insert_all-AreHeld [] s h = tt
insert_all-AreHeld (t ∷ rows) s {s'} h =
    let s₁ : Store = record s { activity = t ∷ s.activity } in
    let later : insert_all rows s₁ ≡ ok s' = ground (arith, h) in
    let new : has_row t.event_id t.account_id s₁.activity ≡ true = ground arith in
    (insert_all-has_row t.event_id t.account_id rows s₁ new later, insert_all-AreHeld rows s₁ later)

-- Rows that are held are not inserted again.
pub silenced-held :
    (rows : List TransactionActivity) (s : Store)
    → AreHeld rows s
    → silenced s (insert_all rows s) ≡ ok s
unfolding insert_all insert_activity
silenced-held [] s h = refl
silenced-held (t ∷ rows) s (a, rest) = rw a refl

-- The same, where the rows are those of an event.
redelivered :
    (x : Result (List TransactionActivity)) (s : Store) {s' : Store}
    → AreHeld (or_no_rows x) s
    → (x >>= λ rows. silenced s (insert_all rows s)) ≡ ok s'
    → s' ≡ s
redelivered (ok rows) s {s'} held h =
    let same = silenced-held rows s held in ground (arith, same, h)
redelivered (raise e) s held h = ground (arith, h)

parsed_redelivered :
    (envelope : EventEnvelope) (x : Result Parsed) (s : Store) {s' : Store}
    → AreHeld (or_no_rows (x >>= rows_of envelope)) s
    → (x >>= λ p. rows_of envelope p >>= λ rows. silenced s (insert_all rows s)) ≡ ok s'
    → s' ≡ s
parsed_redelivered envelope (ok p) s held h = redelivered (rows_of envelope p) s held h
parsed_redelivered envelope (raise e) s held h = ground (arith, h)

pub process-held :
    (envelope : EventEnvelope) (s : Store) {s' : Store}
    → AreHeld (event_rows envelope) s
    → process envelope s ≡ ok s'
    → s' ≡ s
unfolding process event_rows
process-held envelope s held h = parsed_redelivered envelope (parse_event envelope) s held h

pub event_rows-ok :
    (envelope : EventEnvelope) {rows : List TransactionActivity}
    → (parse_event envelope >>= rows_of envelope) ≡ ok rows
    → event_rows envelope ≡ rows
unfolding event_rows
event_rows-ok envelope h = rw h refl

pub Consumes-AreHeld :
    (s : Store) (r : OutboxRow) {l : List OutboxRow} {m : Store}
    → Consumes s l m
    → IsOneOf r l
    → AreHeld (event_rows r.payload) m
Consumes-AreHeld s r (begins e) mem = absurd mem
Consumes-AreHeld s r (applies x {rows = rows} c e h) (inl same) =
    rw (same, event_rows-ok x.payload e) (insert_all-AreHeld rows _ h)
Consumes-AreHeld s r (applies x {rows = rows} c e h) (inr mem) =
    AreHeld-insert_all (event_rows r.payload) rows _ h (Consumes-AreHeld s r c mem)
Consumes-AreHeld s r (redelivers x {m = m} c old h) mem =
    let same = process-held x.payload m (Consumes-AreHeld s x c old) h in
    rw same (Consumes-AreHeld s r c mem)
Consumes-AreHeld s r (goes_on db c) mem = Consumes-AreHeld s r c mem

-- A consumer that has applied the events of a list, each once and in the list's order, and was
-- given some of them again in between, shows the balances of the replayed list.
pub Consumes-balance :
    (s : Store) (a : ℕ) {l : List OutboxRow} {m : Store}
    → Consumes s l m
    → activity_balance a m.activity ≡ activity_balance a (replayed l)
Consumes-balance s a (begins e) = rw e refl
Consumes-balance s a (applies r {l = l} {m = m} {rows = rows} c e h) =
    rw (event_rows-ok r.payload e) (
      insert_all-balance a rows m h
      ∙ balance_append a rows m.activity (replayed l) (Consumes-balance s a c))
Consumes-balance s a (redelivers r {m = m} c old h) =
    rw (process-held r.payload m (Consumes-AreHeld s r c old) h) (Consumes-balance s a c)
Consumes-balance s a (goes_on db c) = Consumes-balance s a c
