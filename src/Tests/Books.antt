-- ===== src/Tests/Books.antt =====
-- A seeded account that receives a deposit and withdraws a part of it; the withdrawal fails.
use miniwallet.Base.{◌≡◌, refl, none, some, [], All, length}
use miniwallet.Models.{Transfer, Withdrawal}
use miniwallet.Keys.Replays.{Reach-replays}
use miniwallet.Schemas.{cache_get}
use miniwallet.Transfers.{
  Request as Payment, transfer, attempt, write_completed, lock_accounts, lock_order,
}
use miniwallet.Base.Int.{pos, ◌+ℤ◌, ◌-ℤ◌}
use miniwallet.Errors.{Result, ok, raise}
use miniwallet.Db.{
  Db, has_account, insert_account, insert_ledger_entry, insert_deposit, insert_withdrawal,
  insert_transfer, find_transfer_by_key, find_deposit_by_reference, find_withdrawal_by_key,
  publish_event,
}
use miniwallet.Uuid.{str_uuid}
use miniwallet.Ledger.{get_balance}
use miniwallet.Backing.{IsBacked}
use miniwallet.Accounts.{open_account, seed, write_seed, find_account}
use miniwallet.Deposits.{Webhook, simulate_deposit, rejection_reason, write_deposit, update_deposit}
use miniwallet.Withdrawals.{
  Request, Reservation, reserved, ended, reserve, write_initiated, initial_row, compensate,
  update_withdrawal,
}
use miniwallet.System.Orders.{Executes, orders_of, Reach-Executes}
use miniwallet.System.{
  empty_books, Reach, steps, deposits, reserves, refunds, transfers, Reach-IsBacked,
}
use miniwallet.Tests.Data.{env_at, digest}
use miniwallet.Tests.System.{seeded_db, seeded_db-reached}

abbrev webhook : Webhook
webhook = record {
  account_id = 100;
  amount = pos 700;
  currency = "USD";
  source_type = "bank_transfer";
  external_reference = "r";
}

abbrev deposited_db : Db
deposited_db = (simulate_deposit (env_at 3) webhook seeded_db).1

abbrev six : Request
six = record {
  account_id = 100;
  amount = pos 600;
  amount_text = "0.06";
  currency = "USD";
  destination_type = "bank_account";
  destination_details = "{}";
  idempotency_key = "k";
  actor_user_id = some 7;
}

abbrev db_of : Reservation → Db
db_of (reserved w db) = db
db_of (ended r) = deposited_db

abbrev reserved_db : Db
reserved_db = db_of (reserve (env_at 4) six deposited_db)

abbrev or_before : Result Db → Db
or_before (ok db) = db
or_before (raise e) = reserved_db

abbrev refunded_db : Db
refunded_db =
    or_before (compensate (env_at 5) (initial_row (env_at 4) six) "RAIL_REJECTED" none reserved_db)

refunded_db-reached : Reach digest refunded_db
unfolding has_account insert_account insert_ledger_entry insert_deposit insert_withdrawal
    find_deposit_by_reference find_withdrawal_by_key publish_event get_balance ◌+ℤ◌ ◌-ℤ◌
    open_account seed write_seed find_account simulate_deposit rejection_reason write_deposit
    update_deposit reserve write_initiated compensate update_withdrawal str_uuid
refunded_db-reached =
    steps
      (steps (steps seeded_db-reached (deposits (env_at 3) webhook))
        (reserves (env_at 4) six {w = initial_row (env_at 4) six} {db' = reserved_db} refl))
      (refunds (env_at 5) (initial_row (env_at 4) six) "RAIL_REJECTED" none {db' = refunded_db}
        refl)

Reach-IsBacked_example : IsBacked refunded_db
Reach-IsBacked_example = Reach-IsBacked digest refunded_db-reached

-- Then the account pays the system's.
abbrev payment : Payment
payment = record {
  from_account_id = 100;
  to_account_id = 0;
  amount = pos 5;
  idempotency_key = "k";
  actor_user_id = some 7;
}

abbrev paid_db : Db
paid_db = (transfer digest (env_at 6) payment (record { db = refunded_db; cache = [] })).1.db

paid_db-rows : (length paid_db.transfers ≡ 1) × (length paid_db.withdrawals ≡ 1)
unfolding has_account insert_account insert_ledger_entry insert_deposit insert_withdrawal
    find_deposit_by_reference find_withdrawal_by_key publish_event get_balance ◌+ℤ◌ ◌-ℤ◌
    open_account seed write_seed find_account simulate_deposit rejection_reason write_deposit
    update_deposit reserve write_initiated compensate update_withdrawal str_uuid transfer attempt
    write_completed insert_transfer find_transfer_by_key lock_accounts lock_order cache_get
paid_db-rows = (refl, refl)

paid_db-reached : Reach digest paid_db
paid_db-reached = steps refunded_db-reached (transfers (env_at 6) payment [])

Reach-replays_example :
    All
      (λ (t : Transfer). find_transfer_by_key t.idempotency_key paid_db ≡ some t)
      paid_db.transfers
    × All
        (λ (w : Withdrawal). find_withdrawal_by_key w.idempotency_key paid_db ≡ some w)
        paid_db.withdrawals
Reach-replays_example = Reach-replays digest paid_db-reached

Reach-Executes_example : Executes (orders_of paid_db-reached) empty_books (get_balance paid_db)
Reach-Executes_example = Reach-Executes paid_db-reached
