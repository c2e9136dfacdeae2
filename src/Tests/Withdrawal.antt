-- ===== src/Tests/Withdrawal.antt =====
-- Withdrawals at concrete inputs.
use miniwallet.Base.{◌≡◌, ◌≢◌, refl, none, some, [], true, arith}
use miniwallet.Base.Int.{pos, ◌+ℤ◌, ◌-ℤ◌}
use miniwallet.Errors.{ok, raise}
use miniwallet.Models.{Withdrawal, WithdrawalStatus}
use miniwallet.Db.{
  Db, has_account, insert_withdrawal, insert_ledger_entry, publish_event, find_withdrawal_by_key,
}
use miniwallet.Ledger.{get_balance}
use miniwallet.Ledger.Sums.{IsSound}
use miniwallet.Circuit.{default_config}
use miniwallet.Schemas.{cache_get}
use miniwallet.Uuid.{str_uuid}
use miniwallet.Withdrawals.{
  Request, World, reserved, reserve, initial_row, write_initiated, complete, compensate,
}
use miniwallet.Withdrawals.Steps.{Draws, create_withdrawal}
use miniwallet.Withdrawals.Refund.{reserve-IsSound, compensate-IsSound, compensate-reserve}
use miniwallet.Withdrawals.Saga.{CanWithdraw, Leaves, withdrawal_all_or_nothing}
use miniwallet.Withdrawals.Keys.{status_in, late_completion_keeps_refund}
use miniwallet.Recovery.Refunds.{by_saga, by_sweeper, refund, no_double_refund}
use miniwallet.Tests.Data.{env_at, funded_db, funded_db-IsSound, digest}

abbrev five : Request
five = record {
  account_id = 1;
  amount = pos 50000;
  amount_text = "5.00";
  currency = "USD";
  destination_type = "bank_account";
  destination_details = "{}";
  idempotency_key = "k";
  actor_user_id = some 1;
}

abbrev start : World
start = record {
  db = funded_db;
  cache = [];
  circuit = record { state = none; failure_count = 0; last_failure_at = none; probe_active = none };
  rail = record { forced_next = [] };
}

-- The rail's third failure code.
abbrev timeout : Draws
timeout = record {
  tx1 = env_at 1;
  submitted_at = 1001;
  call_at = 1002;
  returned_at = 1003;
  rail = record { fails = true; choice = 2; reference = "" };
  tx3 = env_at 2;
}

five-CanWithdraw : CanWithdraw (env_at 1) five funded_db
unfolding has_account get_balance find_withdrawal_by_key ◌+ℤ◌ ◌-ℤ◌
five-CanWithdraw = record {
  positive = ground arith;
  user = ground arith;
  account = refl;
  system = refl;
  funded = ground arith;
  new_key = refl;
  no_reversal = refl;
}

withdrawal_all_or_nothing_example :
    let (res, s') = create_withdrawal digest (some default_config) timeout five start in
    Leaves five funded_db s'.db res
unfolding cache_get
withdrawal_all_or_nothing_example =
    withdrawal_all_or_nothing digest (some default_config) timeout five start refl five-CanWithdraw

abbrev row : Withdrawal
row = initial_row (env_at 1) five

abbrev reserved_db : Db
reserved_db = elim (reserve (env_at 1) five funded_db) [ reserved _ db ↦ db | _ ↦ funded_db ]

reserves : reserve (env_at 1) five funded_db ≡ reserved row reserved_db
unfolding reserve has_account get_balance ◌+ℤ◌ ◌-ℤ◌ insert_withdrawal find_withdrawal_by_key
    write_initiated insert_ledger_entry
reserves = refl

abbrev refunded_db : Db
refunded_db = elim (compensate (env_at 2) row "TIMEOUT" none reserved_db) [
  | ok db ↦ db
  | raise _ ↦ funded_db
]

refunds : compensate (env_at 2) row "TIMEOUT" none reserved_db ≡ ok refunded_db
unfolding reserve has_account get_balance ◌+ℤ◌ ◌-ℤ◌ insert_withdrawal find_withdrawal_by_key
    write_initiated insert_ledger_entry compensate publish_event str_uuid
refunds = refl

reserved_db-IsSound : IsSound reserved_db.ledger_entries
reserved_db-IsSound =
    reserve-IsSound (env_at 1) five funded_db {db' = reserved_db} reserves funded_db-IsSound

reserve-IsSound_example : IsSound reserved_db.ledger_entries
reserve-IsSound_example =
    reserve-IsSound (env_at 1) five funded_db {db' = reserved_db} reserves funded_db-IsSound

compensate-IsSound_example : IsSound refunded_db.ledger_entries
compensate-IsSound_example =
    compensate-IsSound (env_at 2) row "TIMEOUT" none reserved_db {db' = refunded_db} refunds
      reserved_db-IsSound

-- The saga has refunded, and the sweeper comes after it.
no_double_refund_example :
    refund by_sweeper (env_at 3) row "CIRCUIT_OPEN" refunded_db ≢ ok funded_db
no_double_refund_example =
    no_double_refund (by_saga none) by_sweeper (env_at 2) (env_at 3) row row "TIMEOUT"
      "CIRCUIT_OPEN" reserved_db refunded_db [] {db' = refunded_db} refunds refl refl

compensate-reserve_example : get_balance refunded_db 1 ≡ get_balance funded_db 1
compensate-reserve_example =
    compensate-reserve (env_at 1) (env_at 2) five funded_db row "TIMEOUT" none reserved_db reserves
      refl refl refl refunds 1

late_completion_keeps_refund_example :
    let db'' = complete (env_at 3) row "r" none refunded_db in
    (status_in row.id db''.withdrawals ≡ some WithdrawalStatus.completed)
    × (get_balance db'' 1 ≡ get_balance reserved_db 1 +ℤ pos 50000)
unfolding reserve has_account get_balance ◌+ℤ◌ ◌-ℤ◌ insert_withdrawal find_withdrawal_by_key
    write_initiated insert_ledger_entry publish_event
late_completion_keeps_refund_example =
    late_completion_keeps_refund (env_at 2) (env_at 3) row "TIMEOUT" "r" none none reserved_db
      (ground arith) (ground arith) refunds

-- The key again for another account and amount, where Redis has lost it.
abbrev other : Request
other = record five { account_id = 2; amount = pos 0 }
