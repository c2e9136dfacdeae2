-- ===== src/Withdrawals.antt =====
-- app/services/withdrawal_service.py: the outbound saga. Each transaction is one step; the assignments
-- to the ORM object are an UPDATE of the columns that they change, WHERE id = :id, and the listener of
-- app/models/withdrawal.py adds updated_at to each.
pub mod Steps
pub mod Refund
pub mod Conclusion
pub mod Saga
pub mod Keys
pub mod Course
pub mod Movement
use miniwallet.Base.{
  ℕ, String, Bool, true, false, Option, none, some, List, find?, map, not, ◌||◌, ◌==◌, str_eq, ◌<>◌,
  if◌then◌else◌,
}
use miniwallet.Base.Int.{ℤ, ltb_ℤ}
use miniwallet.Uuid.{str_uuid}
use miniwallet.Errors.{
  Error, Result, ok, raise, ◌>>=◌, account_not_found, insufficient_balance, idempotency_conflict,
  no_result_found, validation_error, withdrawal_not_found,
}
use miniwallet.Events.{
  uuid, decimal, text, withdrawal_initiated, withdrawal_completed, withdrawal_failed,
}
use miniwallet.Models.{Direction, debit, credit, WithdrawalStatus, LedgerEntry, Withdrawal}
use miniwallet.Db.{
  Db, Env, has_account, insert_withdrawal, insert_ledger_entry, find_withdrawal_by_key,
  publish_event, system_account_id,
}
use miniwallet.Ledger.{get_balance}
use miniwallet.Rail.{Rail, RailReply, accepted, rail_error, Draw, send_withdrawal}
use miniwallet.Circuit.{
  Circuit, Config, CallReply, result, rail_failed, circuit_open, admit, report,
}
use miniwallet.Schemas.{
  WithdrawalResponse, CachedResponse, transfer_response, withdrawal_response, Cached, Cache,
  HashInput, withdrawal_input, cache_get, cache_set,
}

-- The parameters of a call of `create_withdrawal`; `amount_text` is `str(amount)`.
pub record Request : Type 0 where
  pub account_id : ℕ
  pub amount : ℤ
  pub amount_text : String
  pub currency : String
  pub destination_type : String
  pub destination_details : String
  pub idempotency_key : String
  pub actor_user_id : Option ℕ

-- The database, Redis and the rail.
pub record World : Type 0 where
  pub db : Db
  pub cache : Cache
  pub circuit : Circuit
  pub rail : Rail

unfoldable pub withdrawal_to_response : Withdrawal → WithdrawalResponse
withdrawal_to_response w = record {
  withdrawal_id = w.id;
  account_id = w.account_id;
  amount = w.amount;
  currency = w.currency;
  status = w.status;
  destination_type = w.destination_type;
  failure_code = w.failure_code;
  external_reference = w.external_reference;
  created_at = w.created_at;
  submitted_at = w.submitted_at;
  completed_at = w.completed_at;
}

abbrev pub initial_row : Env → Request → Withdrawal
initial_row env r = record {
  id = env.uuid4 0;
  account_id = r.account_id;
  amount = r.amount;
  currency = r.currency;
  status = WithdrawalStatus.pending;
  failure_code = none;
  destination_type = r.destination_type;
  destination_details = r.destination_details;
  external_reference = none;
  idempotency_key = r.idempotency_key;
  created_at = env.now 0;
  submitted_at = none;
  completed_at = none;
  updated_at = env.now 0;
}

-- A leg of a withdrawal or of its reversal.
abbrev pub leg : Env → ℕ → ℕ → Withdrawal → Direction → ℕ → String → Option String → LedgerEntry
leg env id txn w direction account entry_type key = record {
  id = id;
  transaction_id = txn;
  account_id = account;
  direction = direction;
  amount = w.amount;
  currency = w.currency;
  entry_type = entry_type;
  reference_id = some w.id;
  idempotency_key = key;
  created_at = env.now 0;
}

-- TX 1 after the row was flushed: credit leg, debit leg, event and commit.
unfoldable pub write_initiated : Env → Request → Db → Result Db
write_initiated env r db = do
  let w = initial_row env r
  db₁ ←
      insert_ledger_entry
        (leg env (env.uuid4 2) (env.uuid4 1) w credit system_account_id "withdrawal" none) db
  db₂ ←
      insert_ledger_entry
        (leg env (env.uuid4 3) (env.uuid4 1) w debit r.account_id "withdrawal" none) db₁
  ok (
      publish_event env "withdrawal.events" "withdrawal.initiated"
        (withdrawal_initiated (uuid w.id) (uuid r.account_id) (decimal r.amount) (text r.currency)
          (text r.destination_type) (text "withdrawal"))
        r.actor_user_id none db₂)

-- How TX 1 ends: the saga goes on, or the call returns or raises with the database as it was.
pub data Reservation : Type 0 where
  reserved : Withdrawal → Db → Reservation
  ended : Result WithdrawalResponse → Reservation

-- `except IntegrityError` at the flush: whatever the constraint was, the row with the key answers.
abbrev replayed : Option Withdrawal → Result WithdrawalResponse
replayed none = raise no_result_found
replayed (some w) = ok (withdrawal_to_response w)

abbrev initiated : Env → Request → Result Db → Reservation
initiated env r (ok db') = reserved (initial_row env r) db'
initiated env r (raise e) = ended (raise e)

abbrev flushed : Env → Request → Db → Result Db → Reservation
flushed env r db (ok db₁) = initiated env r (write_initiated env r db₁)
flushed env r db (raise _) = ended (replayed (find_withdrawal_by_key r.idempotency_key db))

-- TX 1: reserve the funds.
unfoldable pub reserve : Env → Request → Db → Reservation
reserve env r db =
    if r.account_id == system_account_id
    then ended (raise account_not_found)
    else if not (has_account r.account_id db)
    then ended (raise account_not_found)
    else if ltb_ℤ (get_balance db r.account_id) r.amount
    then ended (raise insufficient_balance)
    else flushed env r db (insert_withdrawal (initial_row env r) db)

-- UPDATE withdrawals SET … WHERE id = :id
unfoldable pub update_withdrawal : ℕ → (Withdrawal → Withdrawal) → Db → Db
update_withdrawal i f db = record db {
  withdrawals = map (λ (w : Withdrawal). if w.id == i then f w else w) db.withdrawals;
}

abbrev pub set_submitted : ℕ → Withdrawal → Withdrawal
set_submitted now w = record w {
  status = WithdrawalStatus.submitted;
  submitted_at = some now;
  updated_at = now;
}

abbrev pub set_completed : ℕ → String → Withdrawal → Withdrawal
set_completed now reference w = record w {
  status = WithdrawalStatus.completed;
  external_reference = some reference;
  completed_at = some now;
  updated_at = now;
}

abbrev pub set_failed : ℕ → String → Withdrawal → Withdrawal
set_failed now code w = record w {
  status = WithdrawalStatus.failed;
  failure_code = some code;
  completed_at = some now;
  updated_at = now;
}

-- Step 2: the status flip in its own transaction.
unfoldable pub submit : ℕ → Withdrawal → Db → Db
submit now w db = update_withdrawal w.id (set_submitted now) db

-- `_complete`, TX 3a
unfoldable pub complete : Env → Withdrawal → String → Option ℕ → Db → Db
complete env w reference actor db =
    publish_event env "withdrawal.events" "withdrawal.completed"
      (withdrawal_completed (uuid w.id) (uuid w.account_id) (decimal w.amount) (text w.currency)
        (text reference) (text "withdrawal"))
      actor none (update_withdrawal w.id (set_completed (env.now 0) reference) db)

-- f"reversal:{withdrawal.id}"
abbrev pub reversal_key : ℕ → String
reversal_key i = "reversal:" <> str_uuid i

abbrev pub reversal_debit : Env → Withdrawal → LedgerEntry
reversal_debit env w =
    leg env (env.uuid4 2) (env.uuid4 1) w debit system_account_id "withdrawal_reversal" none

abbrev pub reversal_credit : Env → Withdrawal → LedgerEntry
reversal_credit env w =
    leg env (env.uuid4 3) (env.uuid4 1) w credit w.account_id "withdrawal_reversal"
      (some (reversal_key w.id))

-- `_compensate`, TX 3b
unfoldable pub compensate : Env → Withdrawal → String → Option ℕ → Db → Result Db
compensate env w code actor db = do
  db₁ ← insert_ledger_entry (reversal_debit env w) db
  db₂ ← insert_ledger_entry (reversal_credit env w) db₁
  ok (
      publish_event env "withdrawal.events" "withdrawal.failed"
        (withdrawal_failed (uuid w.id) (uuid w.account_id) (decimal w.amount) (text w.currency)
          (text code) (text "withdrawal_reversal"))
        actor none (update_withdrawal w.id (set_failed (env.now 0) code) db₂))

abbrev owned_withdrawal : ℕ → Option Withdrawal → Result WithdrawalResponse
owned_withdrawal requester none = raise withdrawal_not_found
owned_withdrawal requester (some w) =
    if not (w.account_id == requester)
    then raise withdrawal_not_found
    else ok (withdrawal_to_response w)

-- `get_withdrawal`
unfoldable pub get_withdrawal : Db → ℕ → ℕ → Result WithdrawalResponse
get_withdrawal db withdrawal_id requester =
    owned_withdrawal requester (find? (λ (w : Withdrawal). w.id == withdrawal_id) db.withdrawals)
