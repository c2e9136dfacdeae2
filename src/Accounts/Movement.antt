-- ===== src/Accounts/Movement.antt =====
-- Opening an account, and a seed, as changes of the books.
use miniwallet.Base.{ℕ, ◌≡◌, inl, refl, true, Option, none, some, [], ◌∷◌, String, arith}
use miniwallet.Base.Int.{ℤ, pos, ◌≤ℤ◌, int_laws}
use miniwallet.Errors.{Error, Result, ok, raise}
use miniwallet.Events.{uuid, decimal, text, seed_completed}
use miniwallet.Models.{debit, credit, LedgerEntry, Account}
use miniwallet.Db.{
  Db, Env, insert_account, insert_ledger_entry, publish_event, outbox_row, system_account_id,
  has_account,
}
use miniwallet.Ledger.{get_balance}
use miniwallet.Accounts.{
  opened, open_account, account_row, seed_leg, write_seed, find_account, find_entry_by_key, seeded,
  seed_again, seed,
}
use miniwallet.Activity.Replay.{shown, shown-account_opened, shown-seed_completed}
use miniwallet.Activity.Readable.{
  KeepsAccounts, KeepsAccounts-trans, same_accounts, Emits-one, IsReadable-account_opened,
  IsReadable-seed_completed,
}
use miniwallet.Backing.Tables.{SameTables, posts_entries}
use miniwallet.Bank.{Change, keeps, posts, Change-refl}

opened-accounts :
    (env : Env) (u : ℕ) (db : Db) {db' : Db}
    → insert_account (account_row env u) db ≡ ok db'
    → KeepsAccounts db db'
unfolding insert_account has_account
opened-accounts env u db h = record { keeps = λ i k. ground arith }

opened-tables :
    (env : Env) (u : ℕ) (db : Db) {db' : Db}
    → insert_account (account_row env u) db ≡ ok db'
    → SameTables db db'
unfolding insert_account
opened-tables env u db h = ground arith

opened-Change :
    (env : Env) (u : ℕ) (db : Db) (x : Result Db)
    → insert_account (account_row env u) db ≡ x
    → Change db (opened env u db x).1
unfolding insert_account publish_event get_balance shown
opened-Change env u db (raise e) h = Change-refl db
opened-Change env u db (ok db') h =
    let ledger : db'.ledger_entries ≡ db.ledger_entries = ground arith in
    let outbox : db'.outbox ≡ db.outbox = ground arith in
    keeps (λ a. rw ledger refl)
      (λ a _. rw outbox (shown-account_opened env "account.events" (some u) none db.outbox a _ _ _))
      (Emits-one _ (rw outbox refl) refl
        (KeepsAccounts-trans (opened-accounts env u db h) (same_accounts refl))
        (IsReadable-account_opened env (some u) none _ (uuid (env.uuid4 0)) (uuid u)
          (text "active")))
      (posts_entries [] ledger (
        let tables = opened-tables env u db h in
        record {
          transfers = tables.transfers;
          deposits = tables.deposits;
          withdrawals = tables.withdrawals;
        }))

pub open_account-Change : (env : Env) (u : ℕ) (db : Db) → Change db (open_account env u db).1
unfolding open_account
open_account-Change env u db = opened-Change env u db _ refl

-- What a seed that wrote has written.
record Wrote (env : Env) (i : ℕ) (x : ℤ) (k : String) (u : ℕ) (db db' : Db) : Type 0 where
  positive : pos 1 ≤ℤ x
  ledger :
      db'.ledger_entries
      ≡ seed_leg env (env.uuid4 2) credit i x (some k)
        ∷ seed_leg env (env.uuid4 1) debit system_account_id x none
        ∷ db.ledger_entries
  outbox :
      db'.outbox
      ≡ outbox_row env "account.events" "seed.completed"
          (seed_completed (uuid i) (uuid u) (decimal x) (text "USD") (text "seed"))
          (some u)
          none
        ∷ db.outbox
  accounts : db'.accounts ≡ db.accounts
  known : has_account i db' ≡ true
  tables : SameTables db db'

write_seed-Wrote :
    (env : Env) (i : ℕ) (x : ℤ) (k : String) (u : ℕ) (db : Db) {db' : Db}
    → write_seed env i x k u db ≡ ok db'
    → Wrote env i x k u db db'
unfolding write_seed insert_ledger_entry publish_event has_account
write_seed-Wrote env i x k u db h = ground arith

write_seed-Change :
    (env : Env) (i : ℕ) (x : ℤ) (k : String) (u : ℕ) (db : Db) {db' : Db}
    → write_seed env i x k u db ≡ ok db'
    → Change db db'
unfolding get_balance shown
write_seed-Change env i x k u db h =
    let w = write_seed-Wrote env i x k u db h in
    posts system_account_id i x w.positive (inl refl) (λ a. rw w.ledger (grind int_laws))
      (λ a user.
        rw
          (
            w.outbox,
            shown-seed_completed env "account.events" (some u) none db.outbox a i u x "USD" "seed",
          )
          (ground (arith, user)))
      (Emits-one _ w.outbox refl (same_accounts w.accounts)
        (IsReadable-seed_completed env (some u) none _ i u x "USD" "seed" w.known))
      (posts_entries
        (seed_leg env (env.uuid4 2) credit i x (some k)
          ∷ seed_leg env (env.uuid4 1) debit system_account_id x none
          ∷ [])
        w.ledger w.tables)

seed_again-db :
    (i : ℕ) (x : ℤ) (e : Error) (o : Option LedgerEntry) (db : Db) → (seed_again i x e o db).1 ≡ db
unfolding seed_again
seed_again-db i x e none db = refl
seed_again-db i x e (some old) db = ground arith

seeded-Change :
    (env : Env) (i : ℕ) (x : ℤ) (k : String) (u : ℕ) (db : Db) (y : Result Db)
    → write_seed env i x k u db ≡ y
    → Change db (seeded env i x k db y).1
unfolding seeded
seeded-Change env i x k u db (ok db') h = write_seed-Change env i x k u db h
seeded-Change env i x k u db (raise e) h =
    rw (seed_again-db i x e (find_entry_by_key k db) db) (Change-refl db)

by_account-Change :
    (env : Env) (i : ℕ) (x : ℤ) (k : String) (u : ℕ) (db : Db) (o : Option Account)
    → find_account i db ≡ o
    → Change db (seed env i x k u db).1
unfolding seed
by_account-Change env i x k u db none e =
    let same : (seed env i x k u db).1 ≡ db = ground arith in rw same (Change-refl db)
by_account-Change env i x k u db (some a) e =
    let same : seed env i x k u db ≡ seeded env i x k db (write_seed env i x k u db) =
      ground arith in
    rw same (seeded-Change env i x k u db _ refl)

pub seed-Change :
    (env : Env) (i : ℕ) (x : ℤ) (k : String) (u : ℕ) (db : Db) → Change db (seed env i x k u db).1
seed-Change env i x k u db = by_account-Change env i x k u db _ refl

opened-ledger :
    (env : Env) (u : ℕ) (db : Db) (x : Result Db)
    → insert_account (account_row env u) db ≡ x
    → (opened env u db x).1.ledger_entries ≡ db.ledger_entries
unfolding insert_account publish_event
opened-ledger env u db (raise e) h = refl
opened-ledger env u db (ok db') h = ground arith

pub open_account-ledger :
    (env : Env) (u : ℕ) (db : Db) → (open_account env u db).1.ledger_entries ≡ db.ledger_entries
unfolding open_account
open_account-ledger env u db = opened-ledger env u db _ refl
