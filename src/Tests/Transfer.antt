-- ===== src/Tests/Transfer.antt =====
-- Transfers at concrete inputs.
use miniwallet.Base.{ℕ, ◌≡◌, refl, none, some, [], arith}
use miniwallet.Base.Int.{ℤ, pos, ◌+ℤ◌, ◌-ℤ◌}
use miniwallet.Errors.{ok, raise, insufficient_balance, idempotency_key_consumed}
use miniwallet.Models.{TransferStatus}
use miniwallet.Uuid.{str_uuid}
use miniwallet.Ledger.{get_balance}
use miniwallet.Schemas.{Session, TransferResponse, cache_get}
use miniwallet.Db.{has_account, find_transfer_by_key, insert_transfer}
use miniwallet.Transfers.{
  Request, transfer, transfer_row, attempt, lock_order, lock_accounts, write_failed,
  transfer_to_response,
}
use miniwallet.Transfers.Retry.{
  CanTransfer, shifted, transfer_moves_funds, transfer_exactly_once, transfer_key_consumed,
}
use miniwallet.Tests.Data.{env_at, funded_db, digest}

abbrev send : ℕ → ℕ → ℤ → Request
send a b x = record {
  from_account_id = a;
  to_account_id = b;
  amount = x;
  idempotency_key = "k";
  actor_user_id = some a;
}

abbrev five : Request
five = send 1 2 (pos 50000)

abbrev start : Session
start = record { db = funded_db; cache = [] }

five-CanTransfer : CanTransfer five funded_db
unfolding has_account
five-CanTransfer = record {
  positive = ground arith;
  different = ground arith;
  sender = refl;
  receiver = refl;
}

transfer_moves_funds_example :
    ((transfer digest (env_at 1) five start).0
      ≡ ok (transfer_to_response (transfer_row (env_at 1) five TransferStatus.completed none)))
    × ((a : ℕ)
        → get_balance (transfer digest (env_at 1) five start).1.db a ≡ shifted five funded_db a)
unfolding get_balance cache_get find_transfer_by_key has_account ◌+ℤ◌ ◌-ℤ◌
transfer_moves_funds_example =
    transfer_moves_funds digest (env_at 1) five start refl refl five-CanTransfer (ground arith)

abbrev paid : TransferResponse
paid = transfer_to_response (transfer_row (env_at 1) five TransferStatus.completed none)

-- The first call's answer.
first : (transfer digest (env_at 1) five start).0 ≡ ok paid
unfolding cache_get find_transfer_by_key has_account get_balance ◌+ℤ◌ ◌-ℤ◌
first =
    (transfer_moves_funds digest (env_at 1) five start refl refl five-CanTransfer (ground arith)).0

abbrev broke : Session
broke = record {
  db = record (transfer digest (env_at 1) five start).1.db { ledger_entries = [] };
  cache = [];
}

-- Redis has lost the key, and the sender is out of money.
transfer_exactly_once_example :
    ((transfer digest (env_at 2) five broke).0 ≡ ok paid)
    × ((transfer digest (env_at 2) five broke).1.db ≡ broke.db)
unfolding cache_get
transfer_exactly_once_example =
    transfer_exactly_once digest (env_at 1) (env_at 2) five start [] [] refl refl first

-- Thrice what the sender has.
abbrev too_much : Request
too_much = send 1 2 (pos 3000000)

refused : (transfer digest (env_at 1) too_much start).0 ≡ raise insufficient_balance
unfolding transfer attempt str_uuid lock_order lock_accounts has_account get_balance ◌+ℤ◌ ◌-ℤ◌
    cache_get write_failed insert_transfer find_transfer_by_key
refused = refl

abbrev later : Session
later = record {
  db = record (transfer digest (env_at 1) too_much start).1.db {
    ledger_entries = funded_db.ledger_entries;
  };
  cache = [];
}

transfer_key_consumed_example :
    ((transfer digest (env_at 2) too_much later).0 ≡ raise idempotency_key_consumed)
    × ((transfer digest (env_at 2) too_much later).1.db ≡ later.db)
unfolding cache_get
transfer_key_consumed_example =
    transfer_key_consumed digest (env_at 1) (env_at 2) too_much start [] funded_db.ledger_entries
      refl refl refused
