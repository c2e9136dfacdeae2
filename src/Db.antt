-- ===== src/Db.antt =====
-- The database (app/models, alembic/versions): a table is a list of rows, newest first. An insert
-- checks the constraints of its table in PostgreSQL's order: CHECK, then UNIQUE, then FOREIGN KEY.
-- Primary keys are drawn by `uuid4`, and no insert is modelled to fail on one.
use miniwallet.Base.{
  ℕ, String, Bool, true, false, not, Option, none, some, List, ◌∷◌, any, find?, ◌==◌, str_eq,
}
use miniwallet.Base.Int.{pos, ltb_ℤ}
use miniwallet.Errors.{
  Constraint, Result, ok, raise, integrity_error, ◌>>◌, uq_one_account_per_user, accounts_user_fkey,
  users_email_key, ledger_amount_check, ledger_account_fkey, ledger_idempotency_key,
  transfers_amount_check, chk_different_transfer_accounts, transfers_account_fkey,
  transfers_idempotency_key, deposits_amount_check, deposits_external_reference_key,
  withdrawals_amount_check, withdrawals_account_fkey, withdrawals_idempotency_key,
}
use miniwallet.Events.{EventPayload, EventEnvelope, model_dump}
use miniwallet.Models.{User, Account, LedgerEntry, Transfer, Deposit, Withdrawal, OutboxStatus}

-- app/models/outbox.py
pub record OutboxRow : Type 0 where
  pub id : ℕ
  pub topic : String
  pub event_type : String
  pub payload : EventEnvelope
  pub status : OutboxStatus
  pub retry_count : ℕ
  pub created_at : ℕ
  pub published_at : Option ℕ

pub record Db : Type 0 where
  pub users : List User
  pub accounts : List Account
  pub ledger_entries : List LedgerEntry
  pub transfers : List Transfer
  pub deposits : List Deposit
  pub withdrawals : List Withdrawal
  pub outbox : List OutboxRow

-- What one call draws from outside: the results of its `uuid.uuid4()` and `datetime.now()` calls.
pub record Env : Type 0 where
  pub uuid4 : ℕ → ℕ
  pub now : ℕ → ℕ

-- app/config.py: UUID("00000000-0000-0000-0000-000000000000")
abbrev pub system_account_id : ℕ
system_account_id = 0

-- A constraint that must hold, or the statement raises IntegrityError.
abbrev pub require : Bool → Constraint → Result (Unit {0})
require true c = ok tt
require false c = raise (integrity_error c)

unfoldable pub has_account : ℕ → Db → Bool
has_account i db = any (λ (a : Account). a.id == i) db.accounts

abbrev pub same_key : String → Option String → Bool
same_key k none = false
same_key k (some j) = str_eq j k

abbrev pub ledger_key_taken : Option String → List LedgerEntry → Bool
ledger_key_taken none l = false
ledger_key_taken (some k) l = any (λ (e : LedgerEntry). same_key k e.idempotency_key) l

abbrev pub same_user : Option ℕ → Option ℕ → Bool
same_user none u = false
same_user (some a) none = false
same_user (some a) (some b) = a == b

unfoldable pub insert_user : User → Db → Result Db
insert_user u db = do
  require (not (any (λ (v : User). str_eq v.email u.email) db.users)) users_email_key
  ok (record db { users = u ∷ db.users })

abbrev pub user_exists : Option ℕ → Db → Bool
user_exists none db = true
user_exists (some u) db = any (λ (v : User). v.id == u) db.users

unfoldable pub insert_account : Account → Db → Result Db
insert_account a db = do
  require (not (any (λ (b : Account). same_user b.user_id a.user_id) db.accounts))
      uq_one_account_per_user
  require (user_exists a.user_id db) accounts_user_fkey
  ok (record db { accounts = a ∷ db.accounts })

unfoldable pub insert_ledger_entry : LedgerEntry → Db → Result Db
insert_ledger_entry e db = do
  require (ltb_ℤ (pos 0) e.amount) ledger_amount_check
  require (not (ledger_key_taken e.idempotency_key db.ledger_entries)) ledger_idempotency_key
  require (has_account e.account_id db) ledger_account_fkey
  ok (record db { ledger_entries = e ∷ db.ledger_entries })

unfoldable pub find_transfer_by_key : String → Db → Option Transfer
find_transfer_by_key k db = find? (λ (t : Transfer). str_eq t.idempotency_key k) db.transfers

abbrev pub is_none {ℓ} : {A : Type ℓ} → Option A → Bool
is_none none = true
is_none (some _) = false

unfoldable pub insert_transfer : Transfer → Db → Result Db
insert_transfer t db = do
  require (ltb_ℤ (pos 0) t.amount) transfers_amount_check
  require (not (t.from_account_id == t.to_account_id)) chk_different_transfer_accounts
  require (is_none (find_transfer_by_key t.idempotency_key db)) transfers_idempotency_key
  require (has_account t.from_account_id db) transfers_account_fkey
  require (has_account t.to_account_id db) transfers_account_fkey
  ok (record db { transfers = t ∷ db.transfers })

unfoldable pub find_deposit_by_reference : String → Db → Option Deposit
find_deposit_by_reference r db = find? (λ (d : Deposit). str_eq d.external_reference r) db.deposits

unfoldable pub insert_deposit : Deposit → Db → Result Db
insert_deposit d db = do
  require (ltb_ℤ (pos 0) d.amount) deposits_amount_check
  require (is_none (find_deposit_by_reference d.external_reference db))
      deposits_external_reference_key
  ok (record db { deposits = d ∷ db.deposits })

unfoldable pub find_withdrawal_by_key : String → Db → Option Withdrawal
find_withdrawal_by_key k db = find? (λ (w : Withdrawal). str_eq w.idempotency_key k) db.withdrawals

unfoldable pub insert_withdrawal : Withdrawal → Db → Result Db
insert_withdrawal w db = do
  require (ltb_ℤ (pos 0) w.amount) withdrawals_amount_check
  require (is_none (find_withdrawal_by_key w.idempotency_key db)) withdrawals_idempotency_key
  require (has_account w.account_id db) withdrawals_account_fkey
  ok (record db { withdrawals = w ∷ db.withdrawals })

-- The row that `publish_event` adds: `event_id or str(uuid4())`.
abbrev pub outbox_row : Env → String → String → EventPayload → Option ℕ → Option ℕ → OutboxRow
outbox_row env topic event_type payload actor_id event_id = record {
  id = env.uuid4 8;
  topic = topic;
  event_type = event_type;
  payload = record {
    event_id = elim event_id [ some i ↦ i | none ↦ env.uuid4 9 ];
    event_type = event_type;
    occurred_at = env.now 9;
    version = "1";
    actor_id = actor_id;
    payload = model_dump payload;
  };
  status = OutboxStatus.pending;
  retry_count = 0;
  created_at = env.now 8;
  published_at = none;
}

-- app/events/publisher.py: an outbox row in the caller's transaction.
unfoldable pub publish_event : Env → String → String → EventPayload → Option ℕ → Option ℕ → Db → Db
publish_event env topic event_type payload actor_id event_id db = record db {
  outbox = outbox_row env topic event_type payload actor_id event_id ∷ db.outbox;
}
