-- ===== src/System.antt =====
-- The service as one transition system: the requests, the transactions of the withdrawal saga and
-- the sweeper's resolutions, each a step on the one database, in any order. Any number of sagas run
-- at once, and each may stop between two of its transactions, as a process does that crashes. The
-- relay and the consumers are not among the steps: they write no money and no event. The relay's
-- cleanup removes old rows of the outbox; here the outbox keeps every event that was written.
pub mod Orders
use miniwallet.Base.{ℕ, ◌≡◌, ◌≢◌, refl, sym, String, Option, none, [], ◌∷◌, arith}
use miniwallet.Base.Int.{ℤ, pos, ◌+ℤ◌, ◌-ℤ◌}
use miniwallet.Errors.{ok}
use miniwallet.Models.{User, Withdrawal}
use miniwallet.Db.{Db, Env, insert_user, system_account_id}
use miniwallet.Ledger.{get_balance}
use miniwallet.Ledger.Sums.{IsSound}
use miniwallet.Schemas.{HashInput, Cache}
use miniwallet.Activity.Replay.{shown}
use miniwallet.Activity.Readable.{Emits, Emits-nothing, same_accounts}
use miniwallet.Backing.{IsBacked}
use miniwallet.Backing.Tables.{SameTables, posts_entries}
use miniwallet.Bank.{
  Books, Change, keeps, Changes, none_yet, and_then, Changes-Mirrors, Changes-Emits,
  Changes-IsBacked, Mirrors,
}
use miniwallet.Accounts.{open_account, seed}
use miniwallet.Accounts.Laws.{seed-IsSound}
use miniwallet.Accounts.Movement.{open_account-ledger, open_account-Change, seed-Change}
use miniwallet.Transfers.{Request as TransferRequest, transfer}
use miniwallet.Transfers.Effects.{transfer-IsSound}
use miniwallet.Transfers.Movement.{transfer-Change}
use miniwallet.Deposits.{Webhook, simulate_deposit}
use miniwallet.Deposits.Laws.{deposit-IsSound}
use miniwallet.Deposits.Movement.{simulate_deposit-Change}
use miniwallet.Withdrawals.{World, Request, reserved, reserve, submit, complete, compensate}
use miniwallet.Withdrawals.Refund.{reserve-IsSound, compensate-IsSound}
use miniwallet.Withdrawals.Movement.{
  reserve-Change, submit-Change, complete-Change, compensate-Change,
}
use miniwallet.Withdrawals.Conclusion.{submit-ledger, complete-ledger}
use miniwallet.Circuit.{Config}
use miniwallet.Recovery.{Draws, resolve_one}
use miniwallet.Recovery.Sweep.{resolve_one-IsSound}
use miniwallet.Recovery.Movement.{resolve_one-Changes}

-- alembic/versions/0001_initial_schema.py: the system's account, and nothing else.
abbrev pub initial : Db
initial = record {
  users = [];
  accounts =
      record {
        id = system_account_id;
        user_id = none;
        status = "active";
        created_at = 0;
        updated_at = 0;
      }
      ∷ [];
  ledger_entries = [];
  transfers = [];
  deposits = [];
  withdrawals = [];
  outbox = [];
}

-- One committed transaction, or a request that was refused. What Redis and the rail say is any.
pub data Step (sha256 : HashInput → String) (db : Db) : Db → Type 0 where
  registers : (u : User) {db' : Db} → insert_user u db ≡ ok db' → Step sha256 db db'
  opens : (env : Env) (user_id : ℕ) → Step sha256 db (open_account env user_id db).1
  seeds :
      (env : Env) (account_id : ℕ) (amount : ℤ) (key : String) (actor : ℕ)
      → Step sha256 db (seed env account_id amount key actor db).1
  transfers :
      (env : Env) (r : TransferRequest) (cache : Cache)
      → Step sha256 db (transfer sha256 env r (record { db = db; cache = cache })).1.db
  deposits : (env : Env) (w : Webhook) → Step sha256 db (simulate_deposit env w db).1
  reserves :
      (env : Env) (r : Request) {w : Withdrawal} {db' : Db}
      → reserve env r db ≡ reserved w db'
      → Step sha256 db db'
  submits : (now : ℕ) (w : Withdrawal) → Step sha256 db (submit now w db)
  completes :
      (env : Env) (w : Withdrawal) (reference : String) (actor : Option ℕ)
      → Step sha256 db (complete env w reference actor db)
  refunds :
      (env : Env) (w : Withdrawal) (code : String) (actor : Option ℕ) {db' : Db}
      → compensate env w code actor db ≡ ok db'
      → Step sha256 db db'
  recovers :
      (cfg : Config) (d : Draws) (i : ℕ) (s : World)
      → s.db ≡ db
      → Step sha256 db (resolve_one cfg d i s).db

-- The databases that the service can reach.
pub data Reach (sha256 : HashInput → String) : Db → Type 0 where
  starts : Reach sha256 initial
  steps : {db db' : Db} → Reach sha256 db → Step sha256 db db' → Reach sha256 db'

unchanged-Change :
    {db db' : Db}
    → db'.ledger_entries ≡ db.ledger_entries
    → db'.outbox ≡ db.outbox
    → db'.accounts ≡ db.accounts
    → SameTables db db'
    → Change db db'
unfolding get_balance shown
unchanged-Change ledger outbox accounts tables =
    keeps (λ a. rw ledger refl) (λ a _. rw outbox refl)
      (Emits-nothing outbox (same_accounts accounts)) (posts_entries [] ledger tables)

-- The tables that a registration leaves alone.
registers-Change : (u : User) (db : Db) {db' : Db} → insert_user u db ≡ ok db' → Change db db'
unfolding insert_user
registers-Change u db h =
    unchanged-Change (ground arith) (ground arith) (ground arith) (ground arith)

-- Each step is a sequence of changes of the books.
pub Step-Changes : (sha256 : HashInput → String) {db db' : Db} → Step sha256 db db' → Changes db db'
Step-Changes sha256 {db} (registers u h) = and_then none_yet (registers-Change u db h)
Step-Changes sha256 {db} (opens env u) = and_then none_yet (open_account-Change env u db)
Step-Changes sha256 {db} (seeds env i x k u) = and_then none_yet (seed-Change env i x k u db)
Step-Changes sha256 {db} (transfers env r cache) =
    and_then none_yet (transfer-Change sha256 env r (record { db = db; cache = cache }))
Step-Changes sha256 {db} (deposits env w) = and_then none_yet (simulate_deposit-Change env w db)
Step-Changes sha256 {db} (reserves env r h) = and_then none_yet (reserve-Change env r db h)
Step-Changes sha256 {db} (submits now w) = and_then none_yet (submit-Change now w db)
Step-Changes sha256 {db} (completes env w reference actor) =
    and_then none_yet (complete-Change env w reference actor db)
Step-Changes sha256 {db} (refunds env w code actor h) =
    and_then none_yet (compensate-Change env w code actor db h)
Step-Changes sha256 {db} (recovers cfg d i s e) = rw (sym e) (resolve_one-Changes cfg d i s)

-- Each step writes events that the consumers can read, and takes no account away.
pub Step-Emits : (sha256 : HashInput → String) {db db' : Db} → Step sha256 db db' → Emits db db'
Step-Emits sha256 s = Changes-Emits (Step-Changes sha256 s)

pub registers-ledger :
    (u : User) (db : Db) {db' : Db}
    → insert_user u db ≡ ok db'
    → db'.ledger_entries ≡ db.ledger_entries
unfolding insert_user
registers-ledger u db h = ground arith

Step-IsSound :
    (sha256 : HashInput → String) {db db' : Db}
    → Step sha256 db db'
    → IsSound db.ledger_entries
    → IsSound db'.ledger_entries
Step-IsSound sha256 {db} (registers u h) k = rw (registers-ledger u db h) k
Step-IsSound sha256 {db} (opens env u) k = rw (open_account-ledger env u db) k
Step-IsSound sha256 {db} (seeds env i x key u) k = seed-IsSound env i x key u db k
Step-IsSound sha256 {db} (transfers env r cache) k =
    transfer-IsSound sha256 env r (record { db = db; cache = cache }) k
Step-IsSound sha256 {db} (deposits env w) k = deposit-IsSound env w db k
Step-IsSound sha256 {db} (reserves env r h) k = reserve-IsSound env r db h k
Step-IsSound sha256 {db} (submits now w) k = rw (submit-ledger now w db) k
Step-IsSound sha256 {db} (completes env w reference actor) k =
    rw (complete-ledger env w reference actor db) k
Step-IsSound sha256 {db} (refunds env w code actor h) k = compensate-IsSound env w code actor db h k
Step-IsSound sha256 {db} (recovers cfg d i s e) k = resolve_one-IsSound cfg d i s (rw e k)

initial-IsSound : IsSound initial.ledger_entries
unfolding ◌+ℤ◌ ◌-ℤ◌
initial-IsSound = record { balanced = refl; covered = λ a h. ground (arith, h) }

-- In every database that the service reaches, whatever the order in which its requests, the sagas'
-- transactions and the sweeper's resolutions are interleaved, the signed entries of the ledger add
-- up to nothing and no account but the system's is overdrawn.
pub Reach-IsSound :
    (sha256 : HashInput → String) {db : Db} → Reach sha256 db → IsSound db.ledger_entries
Reach-IsSound sha256 starts = initial-IsSound
Reach-IsSound sha256 (steps r s) = Step-IsSound sha256 s (Reach-IsSound sha256 r)

initial-Mirrors : Mirrors initial
unfolding get_balance shown
initial-Mirrors a h = refl

-- Where every amount has at most four decimals, which the source does not check and the model takes
-- for granted: in every database that the service reaches, the balance that the activity consumer's
-- rules give a user's account from all events that were written to the outbox is its balance in the
-- ledger: no movement of money lacks its event, and no event tells of money that did not move.
pub Reach-Mirrors :
    (sha256 : HashInput → String) {db : Db}
    → Reach sha256 db
    → (a : ℕ) → a ≢ system_account_id
    → shown db a ≡ get_balance db a
Reach-Mirrors sha256 starts a h = initial-Mirrors a h
Reach-Mirrors sha256 (steps r s) a h =
    Changes-Mirrors (Step-Changes sha256 s) (Reach-Mirrors sha256 r) a h

-- Nobody has anything.
abbrev pub empty_books : Books
empty_books a = pos 0

-- In every database that the service reaches, the ledger has the entries that the other tables tell
-- of: both legs of each completed transfer, both of each completed deposit, both of each withdrawal
-- whatever its status, and for each failed withdrawal the reversal under its key.
pub Reach-IsBacked : (sha256 : HashInput → String) {db : Db} → Reach sha256 db → IsBacked db
Reach-IsBacked sha256 starts = record {
  rows = record { transfers = tt; deposits = tt; withdrawals = tt };
}
Reach-IsBacked sha256 (steps r s) =
    Changes-IsBacked (Step-Changes sha256 s) (Reach-IsBacked sha256 r)
