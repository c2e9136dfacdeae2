-- ===== src/Deposits.antt =====
-- app/services/deposit_service.py: the rail's webhook for an inbound payment. One transaction, whose
-- idempotency is the UNIQUE constraint on the rail's reference.
pub mod Laws
pub mod Movement
use miniwallet.Base.{
  ℕ, String, Option, none, some, List, find?, map, ◌==◌, str_eq, not, if◌then◌else◌,
}
use miniwallet.Base.Int.{ℤ, pos, leb_ℤ}
use miniwallet.Errors.{
  Error, Result, ok, raise, ◌>>=◌, integrity_error, deposits_external_reference_key,
  no_result_found, deposit_not_found,
}
use miniwallet.Events.{uuid, decimal, text, deposit_completed, deposit_rejected}
use miniwallet.Models.{Direction, debit, credit, Account, DepositStatus, Deposit, LedgerEntry}
use miniwallet.Db.{
  Db, Env, insert_deposit, insert_ledger_entry, find_deposit_by_reference, publish_event,
  system_account_id,
}
use miniwallet.Schemas.{DepositResponse}
use miniwallet.Accounts.{find_account}

-- The parameters of a call of `simulate_deposit`.
pub record Webhook : Type 0 where
  pub account_id : ℕ
  pub amount : ℤ
  pub currency : String
  pub source_type : String
  pub external_reference : String

unfoldable pub deposit_to_response : Deposit → DepositResponse
deposit_to_response d = record {
  deposit_id = d.id;
  account_id = d.account_id;
  amount = d.amount;
  currency = d.currency;
  status = d.status;
  source_type = d.source_type;
  external_reference = d.external_reference;
  rejection_reason = d.rejection_reason;
  created_at = d.created_at;
  completed_at = d.completed_at;
}

-- Step 1: the row as it is inserted.
abbrev pub pending_row : Env → Webhook → Deposit
pending_row env w = record {
  id = env.uuid4 0;
  account_id = w.account_id;
  amount = w.amount;
  currency = w.currency;
  status = DepositStatus.pending;
  source_type = w.source_type;
  external_reference = w.external_reference;
  rejection_reason = none;
  created_at = env.now 0;
  completed_at = none;
  updated_at = env.now 0;
}

abbrev pub rejected_row : Env → Webhook → String → Deposit
rejected_row env w reason = record {
  id = env.uuid4 0;
  account_id = w.account_id;
  amount = w.amount;
  currency = w.currency;
  status = DepositStatus.rejected;
  source_type = w.source_type;
  external_reference = w.external_reference;
  rejection_reason = some reason;
  created_at = env.now 0;
  completed_at = none;
  updated_at = env.now 0;
}

abbrev pub completed_row : Env → Webhook → Deposit
completed_row env w = record {
  id = env.uuid4 0;
  account_id = w.account_id;
  amount = w.amount;
  currency = w.currency;
  status = DepositStatus.completed;
  source_type = w.source_type;
  external_reference = w.external_reference;
  rejection_reason = none;
  created_at = env.now 0;
  completed_at = some (env.now 0);
  updated_at = env.now 0;
}

-- The assignments to the ORM object, flushed: UPDATE deposits … WHERE id = :id.
unfoldable pub update_deposit : Deposit → Db → Db
update_deposit row db = record db {
  deposits = map (λ (d : Deposit). if d.id == row.id then row else d) db.deposits;
}

abbrev check_account : Option Account → Option String
check_account none = some "ACCOUNT_NOT_FOUND"
check_account (some a) = if not (str_eq a.status "active") then some "ACCOUNT_NOT_ACTIVE" else none

-- Step 2: the reason to reject, if there is one.
unfoldable pub rejection_reason : Webhook → Db → Option String
rejection_reason w db =
    if w.account_id == system_account_id
    then some "ACCOUNT_NOT_FOUND"
    else if leb_ℤ w.amount (pos 0)
    then some "INVALID_AMOUNT"
    else if not (str_eq w.currency "USD")
    then some "UNSUPPORTED_CURRENCY"
    else check_account (find_account w.account_id db)

abbrev pub deposit_leg : Env → Webhook → ℕ → Direction → ℕ → LedgerEntry
deposit_leg env w id direction account = record {
  id = id;
  transaction_id = env.uuid4 1;
  account_id = account;
  direction = direction;
  amount = w.amount;
  currency = w.currency;
  entry_type = "deposit";
  reference_id = some (env.uuid4 0);
  idempotency_key = none;
  created_at = env.now 0;
}

-- Step 3: rejected, published and committed, with no ledger entry.
unfoldable pub reject : Env → Webhook → String → Db → Result DepositResponse × Db
reject env w reason db = (
  ok (deposit_to_response (rejected_row env w reason)),
  publish_event env "deposit.events" "deposit.rejected"
      (deposit_rejected (uuid (env.uuid4 0)) (uuid w.account_id) (decimal w.amount)
        (text w.currency) (text "deposit") (text reason))
      none none (update_deposit (rejected_row env w reason) db),
)

-- Step 4: both legs, the completed row, the event and the commit.
unfoldable pub write_deposit : Env → Webhook → Db → Result Db
write_deposit env w db = do
  db₁ ← insert_ledger_entry (deposit_leg env w (env.uuid4 2) credit w.account_id) db
  db₂ ← insert_ledger_entry (deposit_leg env w (env.uuid4 3) debit system_account_id) db₁
  ok (
      publish_event env "deposit.events" "deposit.completed"
        (deposit_completed (uuid (env.uuid4 0)) (uuid w.account_id) (decimal w.amount)
          (text w.currency) (text w.source_type) (text "deposit") (text w.external_reference))
        none none (update_deposit (completed_row env w) db₂))

-- A commit that fails rolls the session back to `before`.
completed : Env → Webhook → Db → Result Db → Result DepositResponse × Db
completed env w before (ok db') = (ok (deposit_to_response (completed_row env w)), db')
completed env w before (raise e) = (raise e, before)

settle : Env → Webhook → Db → Db → Option String → Result DepositResponse × Db
unfolding completed
settle env w before db (some reason) = reject env w reason db
settle env w before db none = completed env w before (write_deposit env w db)

abbrev existing_deposit : Option Deposit → Result DepositResponse
existing_deposit none = raise no_result_found
existing_deposit (some d) = ok (deposit_to_response d)

-- `except IntegrityError`, after the rollback
on_duplicate : Error → Webhook → Db → Result DepositResponse
on_duplicate (integrity_error deposits_external_reference_key) w db =
    existing_deposit (find_deposit_by_reference w.external_reference db)
on_duplicate e w db = raise e

process : Env → Webhook → Db → Result Db → Result DepositResponse × Db
unfolding settle on_duplicate
process env w before (ok db) = settle env w before db (rejection_reason w db)
process env w before (raise e) = (on_duplicate e w before, before)

-- `simulate_deposit`
unfoldable pub simulate_deposit : Env → Webhook → Db → Result DepositResponse × Db
unfolding process
simulate_deposit env w db = process env w db (insert_deposit (pending_row env w) db)

abbrev owned_deposit : ℕ → Option Deposit → Result DepositResponse
owned_deposit requester none = raise deposit_not_found
owned_deposit requester (some d) =
    if not (d.account_id == requester) then raise deposit_not_found else ok (deposit_to_response d)

-- `get_deposit`
unfoldable pub get_deposit : Db → ℕ → ℕ → Result DepositResponse
get_deposit db deposit_id requester =
    owned_deposit requester (find? (λ (d : Deposit). d.id == deposit_id) db.deposits)
