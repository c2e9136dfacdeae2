-- ===== src/Accounts.antt =====
-- app/services/account_service.py: opening an account and the development seed. The queries that
-- read an account are `find_account` and `find_account_by_user`; the balance is in Ledger.
pub mod Laws
pub mod Movement
use miniwallet.Base.{
  ℕ, String, Option, none, some, List, [], ◌∷◌, find?, ◌==◌, ◌&&◌, not, if◌then◌else◌,
}
use miniwallet.Base.Int.{ℤ, eq_ℤ}
use miniwallet.Errors.{
  Error, Result, ok, raise, ◌>>=◌, account_already_exists, account_not_found, idempotency_conflict,
}
use miniwallet.Events.{uuid, decimal, text, account_opened, seed_completed}
use miniwallet.Models.{Direction, debit, credit, Account, LedgerEntry}
use miniwallet.Db.{
  Db, Env, insert_account, insert_ledger_entry, publish_event, same_key, same_user,
  system_account_id,
}
use miniwallet.Ledger.{get_balance}

-- `get_account_by_id`
unfoldable pub find_account : ℕ → Db → Option Account
find_account i db = find? (λ (a : Account). a.id == i) db.accounts

-- `get_account_by_user`
unfoldable pub find_account_by_user : ℕ → Db → Option Account
find_account_by_user u db = find? (λ (a : Account). same_user a.user_id (some u)) db.accounts

abbrev pub account_row : Env → ℕ → Account
account_row env user_id = record {
  id = env.uuid4 0;
  user_id = some user_id;
  status = "active";
  created_at = env.now 0;
  updated_at = env.now 0;
}

abbrev pub opened : Env → ℕ → Db → Result Db → Result Account × Db
opened env user_id db (ok db') = (
  ok (account_row env user_id),
  publish_event env "account.events" "account.opened"
      (account_opened (uuid (env.uuid4 0)) (uuid user_id) (text "active")) (some user_id) none db',
)
opened env user_id db (raise e) = (raise account_already_exists, db)

-- `open_account`: any IntegrityError is reported as AccountAlreadyExistsError.
unfoldable pub open_account : Env → ℕ → Db → Result Account × Db
open_account env user_id db = opened env user_id db (insert_account (account_row env user_id) db)

pub record SeedResponse : Type 0 where
  pub entry_id : ℕ
  pub account_id : ℕ
  pub amount : ℤ
  pub new_balance : ℤ

abbrev pub seed_leg : Env → ℕ → Direction → ℕ → ℤ → Option String → LedgerEntry
seed_leg env id direction account amount key = record {
  id = id;
  transaction_id = env.uuid4 0;
  account_id = account;
  direction = direction;
  amount = amount;
  currency = "USD";
  entry_type = "seed";
  reference_id = none;
  idempotency_key = key;
  created_at = env.now 0;
}

-- The two legs, the event and the commit.
unfoldable pub write_seed : Env → ℕ → ℤ → String → ℕ → Db → Result Db
write_seed env account_id amount key actor db = do
  db₁ ← insert_ledger_entry (seed_leg env (env.uuid4 1) debit system_account_id amount none) db
  db₂ ← insert_ledger_entry (seed_leg env (env.uuid4 2) credit account_id amount (some key)) db₁
  ok (
      publish_event env "account.events" "seed.completed"
        (seed_completed (uuid account_id) (uuid actor) (decimal amount) (text "USD") (text "seed"))
        (some actor) none db₂)

unfoldable pub find_entry_by_key : String → Db → Option LedgerEntry
find_entry_by_key k db = find? (λ (e : LedgerEntry). same_key k e.idempotency_key) db.ledger_entries

seed_response : ℕ → ℕ → ℤ → Db → Result SeedResponse × Db
seed_response entry_id account_id amount db = (
  ok (record {
    entry_id = entry_id;
    account_id = account_id;
    amount = amount;
    new_balance = get_balance db account_id;
  }),
  db,
)

-- The `except` block: the entry that has the key answers, if it is for the same account and amount.
seed_again : ℕ → ℤ → Error → Option LedgerEntry → Db → Result SeedResponse × Db
unfolding seed_response
seed_again account_id amount e none db = (raise e, db)
seed_again account_id amount e (some old) db =
    if old.account_id == account_id && eq_ℤ old.amount amount
    then seed_response old.id account_id amount db
    else (raise idempotency_conflict, db)

seeded : Env → ℕ → ℤ → String → Db → Result Db → Result SeedResponse × Db
unfolding seed_again seed_response
seeded env account_id amount key db (ok db') = seed_response (env.uuid4 2) account_id amount db'
seeded env account_id amount key db (raise e) =
    seed_again account_id amount e (find_entry_by_key key db) db

-- `seed`
unfoldable pub seed : Env → ℕ → ℤ → String → ℕ → Db → Result SeedResponse × Db
unfolding seeded
seed env account_id amount key actor db = elim (find_account account_id db) [
  | none ↦ (raise account_not_found, db)
  | some _ ↦ seeded env account_id amount key db (write_seed env account_id amount key actor db)
]
