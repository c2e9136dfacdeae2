-- ===== src/Activity.antt =====
-- workers/activity_consumer.py: the read model transaction_activity, built from events. A duplicate
-- is silenced: the transaction is rolled back and the call returns.
pub mod CatchUp
pub mod Asked
pub mod Coverage
pub mod Falling
pub mod History
pub mod Laws
pub mod Orders
pub mod Pages
pub mod Readable
pub mod Replay
pub mod Uptake
use miniwallet.Base.{
  ℕ, String, Bool, true, false, Option, none, some, List, [], ◌∷◌, any, ◌==◌, ◌&&◌, not,
  if◌then◌else◌,
}
use miniwallet.Base.Int.{ℤ, pos}
use miniwallet.Errors.{
  Result, ok, raise, ◌>>=◌, ◌>>◌, validation_error, uq_activity_event_account,
  activity_account_fkey,
}
use miniwallet.Events.{
  Leaf, uuid, decimal, text, EventPayload, EventEnvelope, transfer_completed, seed_completed,
  deposit_completed, withdrawal_initiated, withdrawal_failed,
}
use miniwallet.Events.Parse.{Parsed, typed, plain, parse_event}
use miniwallet.Models.{Direction, debit, credit}
use miniwallet.Db.{Db, require, has_account}
use miniwallet.Ledger.{signed}

-- `topics`
abbrev pub topics : List String
topics = "transfer.events" ∷ "account.events" ∷ "deposit.events" ∷ "withdrawal.events" ∷ []

-- app/models/transaction_activity.py
pub record TransactionActivity : Type 0 where
  pub event_id : ℕ
  pub account_id : ℕ
  pub direction : Direction
  pub amount : ℤ
  pub currency : String
  pub entry_type : String
  pub reference_id : Option ℕ
  pub occurred_at : ℕ

-- The tables that the consumer reads and writes.
pub record Store : Type 0 where
  pub db : Db
  pub activity : List TransactionActivity

-- `uuid.UUID(…)`, `Decimal(…)`, and a string as it is; the first two raise on a text of another form.
abbrev pub as_uuid : Leaf → Result ℕ
as_uuid (uuid i) = ok i
as_uuid _ = raise validation_error

abbrev pub as_decimal : Leaf → Result ℤ
as_decimal (decimal x) = ok x
as_decimal _ = raise validation_error

abbrev pub as_text : Leaf → Result String
as_text (text s) = ok s
as_text _ = raise validation_error

-- One `TransactionActivity(…)`.
unfoldable pub activity_row :
    EventEnvelope → Direction → Leaf → Leaf → Leaf → Leaf → Option Leaf → Result TransactionActivity
activity_row envelope direction account amount currency entry_type reference = do
  a ← as_uuid account
  x ← as_decimal amount
  c ← as_text currency
  e ← as_text entry_type
  r ← elim reference [ none ↦ ok none | some i ↦ (as_uuid i >>= λ j. ok (some j)) ]
  ok (record {
    event_id = envelope.event_id;
    account_id = a;
    direction = direction;
    amount = x;
    currency = c;
    entry_type = e;
    reference_id = r;
    occurred_at = envelope.occurred_at;
  })

-- The `isinstance` chain: the rows of one event.
unfoldable pub rows_of : EventEnvelope → Parsed → Result (List TransactionActivity)
unfolding activity_row
rows_of envelope (typed (transfer_completed i f t x c e k)) = do
  sent ← activity_row envelope debit f x c e (some i)
  received ← activity_row envelope credit t x c e (some i)
  ok (sent ∷ received ∷ [])
rows_of envelope (typed (seed_completed a u x c e)) = do
  row ← activity_row envelope credit a x c e none
  ok (row ∷ [])
rows_of envelope (typed (deposit_completed d a x c s e r)) = do
  row ← activity_row envelope credit a x c e (some d)
  ok (row ∷ [])
rows_of envelope (typed (withdrawal_initiated w a x c d e)) = do
  row ← activity_row envelope debit a x c e (some w)
  ok (row ∷ [])
rows_of envelope (typed (withdrawal_failed w a x c r e)) = do
  row ← activity_row envelope credit a x c e (some w)
  ok (row ∷ [])
rows_of envelope _ = ok []

abbrev pub has_row : ℕ → ℕ → List TransactionActivity → Bool
has_row event account l =
    any (λ (t : TransactionActivity). t.event_id == event && t.account_id == account) l

unfoldable pub insert_activity : TransactionActivity → Store → Result Store
insert_activity t s = do
  require (not (has_row t.event_id t.account_id s.activity)) uq_activity_event_account
  require (has_account t.account_id s.db) activity_account_fkey
  ok (record s { activity = t ∷ s.activity })

unfoldable pub insert_all : List TransactionActivity → Store → Result Store
insert_all [] s = ok s
insert_all (t ∷ l) s = insert_activity t s >>= λ s'. insert_all l s'

-- `except IntegrityError`
abbrev silenced : Store → Result Store → Result Store
silenced s (ok s') = ok s'
silenced s (raise e) = ok s

-- `process`
unfoldable pub process : EventEnvelope → Store → Result Store
unfolding rows_of insert_all
process envelope s = do
  payload ← parse_event envelope
  rows ← rows_of envelope payload
  silenced s (insert_all rows s)

-- The balance that the read model shows for an account.
abbrev pub activity_balance : ℕ → List TransactionActivity → ℤ
activity_balance a [] = pos 0
activity_balance a (t ∷ l) =
    let rest = activity_balance a l in
    if t.account_id == a then signed t.direction t.amount rest else rest
