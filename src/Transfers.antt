-- ===== src/Transfers.antt =====
-- app/services/transfer_service.py. `sha256` is hashlib's, on the text that is hashed. A transaction
-- is one step, since the two account rows are locked; `stopped` and `violated` are its failures.
pub mod Effects
pub mod Movement
pub mod Postings
pub mod Retry
use miniwallet.Base.{
  ℕ, String, Bool, true, false, not, ◌||◌, Option, none, some, List, [], ◌∷◌, find?, ◌==◌, str_eq,
  str_lt, ◌<>◌, if◌then◌else◌,
}
use miniwallet.Base.Int.{ℤ, ltb_ℤ}
use miniwallet.Uuid.{str_uuid}
use miniwallet.Errors.{
  Constraint, Error, Result, ok, raise, ◌>>=◌, ◌>>◌, integrity_error, account_not_found,
  insufficient_balance, idempotency_conflict, idempotency_key_consumed, transfer_not_found,
  validation_error, ledger_idempotency_key, transfers_idempotency_key, withdrawals_idempotency_key,
}
use miniwallet.Events.{uuid, decimal, text, transfer_completed, transfer_failed}
use miniwallet.Models.{Direction, debit, credit, TransferStatus, LedgerEntry, Transfer}
use miniwallet.Db.{
  Db, Env, require, has_account, insert_transfer, insert_ledger_entry, find_transfer_by_key,
  publish_event,
}
use miniwallet.Ledger.{get_balance}
use miniwallet.Schemas.{
  TransferResponse, CachedResponse, transfer_response, withdrawal_response, Cached, Cache,
  HashInput, transfer_input, cache_get, cache_set, Session,
}

-- The parameters of a call of `transfer`.
pub record Request : Type 0 where
  pub from_account_id : ℕ
  pub to_account_id : ℕ
  pub amount : ℤ
  pub idempotency_key : String
  pub actor_user_id : Option ℕ

-- `sorted([from_account_id, to_account_id], key=str)`
unfoldable pub lock_order : ℕ → ℕ → List ℕ
lock_order a b = if str_lt (str_uuid b) (str_uuid a) then b ∷ a ∷ [] else a ∷ b ∷ []

-- SELECT … FOR UPDATE of each account in turn; a missing one raises AccountNotFoundError.
unfoldable pub lock_accounts : List ℕ → Db → Bool
lock_accounts [] db = true
lock_accounts (i ∷ l) db = let rest = lock_accounts l db in if has_account i db then rest else false

-- The row of a transfer.
abbrev pub transfer_row : Env → Request → TransferStatus → Option String → Transfer
transfer_row env r status code = record {
  id = env.uuid4 0;
  from_account_id = r.from_account_id;
  to_account_id = r.to_account_id;
  amount = r.amount;
  currency = "USD";
  status = status;
  failure_code = code;
  idempotency_key = r.idempotency_key;
  created_at = env.now 0;
  updated_at = some (env.now 0);
}

-- A leg of the transfer: the k-th id that the call draws for a leg.
abbrev pub leg : Env → Request → ℕ → Direction → ℕ → LedgerEntry
leg env r id direction account = record {
  id = id;
  transaction_id = env.uuid4 1;
  account_id = account;
  direction = direction;
  amount = r.amount;
  currency = "USD";
  entry_type = "transfer";
  reference_id = some (env.uuid4 0);
  idempotency_key = none;
  created_at = env.now 0;
}

-- Step 3 on a short balance: the failed row and its event, committed.
unfoldable pub write_failed : Env → Request → Db → Result Db
write_failed env r db = do
  db' ← insert_transfer (transfer_row env r TransferStatus.failed (some "INSUFFICIENT_BALANCE")) db
  ok (
      publish_event env "transfer.events" "transfer.failed"
        (transfer_failed (uuid (env.uuid4 0)) (uuid r.from_account_id) (uuid r.to_account_id)
          (decimal r.amount) (text "USD") (text "INSUFFICIENT_BALANCE") (text "transfer")
          (text r.idempotency_key))
        r.actor_user_id none db')

-- Step 4: the completed row, the two legs and the event, committed. The column's rounding and that
-- of the event's `f"{amount:.4f}"` are left out, as an amount of at most four decimals has none.
unfoldable pub write_completed : Env → Request → Db → Result Db
write_completed env r db = do
  db₁ ← insert_transfer (transfer_row env r TransferStatus.completed none) db
  db₂ ← insert_ledger_entry (leg env r (env.uuid4 2) debit r.from_account_id) db₁
  db₃ ← insert_ledger_entry (leg env r (env.uuid4 3) credit r.to_account_id) db₂
  ok (
      publish_event env "transfer.events" "transfer.completed"
        (transfer_completed (uuid (env.uuid4 0)) (uuid r.from_account_id) (uuid r.to_account_id)
          (decimal r.amount) (text "USD") (text "transfer") (text r.idempotency_key))
        r.actor_user_id none db₃)

-- How the `try` block ends: with a committed row, with an error after what was committed, or with a
-- violated constraint, on which everything is rolled back.
pub data Outcome : Type 0 where
  done : Transfer → Db → Outcome
  stopped : Error → Db → Outcome
  violated : Error → Outcome

abbrev committed : Env → Request → Result Db → Outcome
committed env r (ok db') = done (transfer_row env r TransferStatus.completed none) db'
committed env r (raise e) = violated e

abbrev refused : Result Db → Outcome
refused (ok db') = stopped insufficient_balance db'
refused (raise e) = violated e

-- The `try` block: steps 2 to 4.
unfoldable pub attempt : Env → Request → Db → Outcome
attempt env r db =
    if not (lock_accounts (lock_order r.from_account_id r.to_account_id) db)
    then stopped account_not_found db
    else if ltb_ℤ (get_balance db r.from_account_id) r.amount
    then refused (write_failed env r db)
    else committed env r (write_completed env r db)

-- `"idempotency_key" in orig.constraint_name`
abbrev pub names_idempotency_key : Error → Bool
names_idempotency_key (integrity_error transfers_idempotency_key) = true
names_idempotency_key (integrity_error ledger_idempotency_key) = true
names_idempotency_key (integrity_error withdrawals_idempotency_key) = true
names_idempotency_key _ = false

unfoldable pub transfer_to_response : Transfer → TransferResponse
transfer_to_response t = record {
  transfer_id = t.id;
  from_account_id = t.from_account_id;
  to_account_id = t.to_account_id;
  amount = t.amount;
  status = t.status;
  failure_code = t.failure_code;
  created_at = t.created_at;
}

abbrev is_failed : TransferStatus → Bool
is_failed TransferStatus.failed = true
is_failed TransferStatus.completed = false

module _ (sha256 : HashInput → String) where
  -- The amount is hashed as `f"{amount:.4f}"`, which says of one with at most four decimals all.
  abbrev pub hash_request : ℕ → ℕ → ℤ → String
  hash_request f t a = sha256 (transfer_input f t a)

  abbrev pub request_hash : Request → String
  request_hash r = hash_request r.from_account_id r.to_account_id r.amount

  -- The row that already has the key, in the `except` block.
  existing_transfer : Request → Error → Option Transfer → Result Transfer
  existing_transfer r e none = raise e
  existing_transfer r e (some t) =
      if not (str_eq (hash_request t.from_account_id t.to_account_id t.amount) (request_hash r))
      then raise idempotency_conflict
      else if is_failed t.status
      then raise idempotency_key_consumed
      else ok t

  -- `except IntegrityError`, after the rollback
  on_integrity_error : Request → Error → Db → Result Transfer
  unfolding existing_transfer
  on_integrity_error r e db =
      if names_idempotency_key e
      then existing_transfer r e (find_transfer_by_key r.idempotency_key db)
      else raise e

  -- The key of Redis.
  abbrev pub cache_key : Request → String
  cache_key r = "idempotency:" <> r.idempotency_key

  -- Step 5: the response, cached after the commit.
  respond : Request → Transfer → Session → Result TransferResponse × Session
  respond r t s = (
    ok (transfer_to_response t),
    record s {
      cache =
          cache_set (cache_key r)
            (record {
              request_hash = request_hash r;
              response = transfer_response (transfer_to_response t);
            })
            s.cache;
    },
  )

  -- `TransferResponse(**json.loads(cached["response"]))`
  abbrev replay : CachedResponse → Result TransferResponse
  replay (transfer_response t) = ok t
  replay (withdrawal_response _) = raise validation_error

  -- Step 1, on a hit.
  on_cached : Request → Cached → Session → Result TransferResponse × Session
  on_cached r c s =
      if not (str_eq c.request_hash (request_hash r))
      then (raise idempotency_conflict, s)
      else (replay c.response, s)

  abbrev after_rollback : Request → Result Transfer → Session → Result TransferResponse × Session
  after_rollback r (ok t) s = respond r t s
  after_rollback r (raise e) s = (raise e, s)

  finish : Request → Outcome → Session → Result TransferResponse × Session
  unfolding on_integrity_error respond
  finish r (done t db') s = respond r t (record s { db = db' })
  finish r (stopped e db') s = (raise e, record s { db = db' })
  finish r (violated e) s = after_rollback r (on_integrity_error r e s.db) s

  -- `transfer`
  unfoldable pub transfer : Env → Request → Session → Result TransferResponse × Session
  unfolding on_cached finish
  transfer env r s = elim (cache_get (cache_key r) s.cache) [
    | some c ↦ on_cached r c s
    | none ↦ finish r (attempt env r s.db) s
  ]

abbrev found_transfer : ℕ → Option Transfer → Result TransferResponse
found_transfer requester none = raise transfer_not_found
found_transfer requester (some t) =
    if not (t.from_account_id == requester || t.to_account_id == requester)
    then raise transfer_not_found
    else ok (transfer_to_response t)

-- `get_transfer`
unfoldable pub get_transfer : Db → ℕ → ℕ → Result TransferResponse
get_transfer db transfer_id requester =
    found_transfer requester (find? (λ (t : Transfer). t.id == transfer_id) db.transfers)
