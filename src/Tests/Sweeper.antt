-- ===== src/Tests/Sweeper.antt =====
-- The sweeper at concrete inputs.
use miniwallet.Base.{◌+◌, ◌≡◌, ◌≤◌, ◌<◌, refl, none, some, [], ◌∷◌, true, arith}
use miniwallet.Base.Int.{pos}
use miniwallet.Models.{Withdrawal, WithdrawalStatus}
use miniwallet.Db.{has_account}
use miniwallet.Circuit.{default_config}
use miniwallet.Withdrawals.{World, reversal_credit, reversal_debit}
use miniwallet.Recovery.{Draws, resolve_one}
use miniwallet.Recovery.Laws.{CanCompensate, Ends, resolve_one_pending}
use miniwallet.Recovery.Timeouts.{resolve_one_unreferenced}
use miniwallet.Withdrawals.Keys.{status_in}
use miniwallet.Tests.Data.{env_at, funded_db}

abbrev row : WithdrawalStatus → Withdrawal
row st = record {
  id = 100;
  account_id = 1;
  amount = pos 50000;
  currency = "USD";
  status = st;
  failure_code = none;
  destination_type = "bank_account";
  destination_details = "{}";
  external_reference = none;
  idempotency_key = "k";
  created_at = 0;
  submitted_at = none;
  completed_at = none;
  updated_at = 0;
}

abbrev world : WithdrawalStatus → World
world st = record {
  db = record funded_db { withdrawals = row st ∷ [] };
  cache = [];
  circuit = record { state = none; failure_count = 0; last_failure_at = none; probe_active = none };
  rail = record { forced_next = [] };
}

abbrev draws : Draws
draws = record {
  checked_at = 2000;
  submitted_at = 2001;
  call_at = 2002;
  returned_at = 2003;
  rail = record { fails = true; choice = 0; reference = "" };
  tx = env_at 3;
}

row-CanCompensate : (st : WithdrawalStatus) → CanCompensate (row st) (world st).db
unfolding has_account
row-CanCompensate st = record {
  positive = ground arith;
  account = refl;
  system = refl;
  unreversed = refl;
}

resolve_one_pending_example :
    Ends
      (env_at 3)
      (row WithdrawalStatus.pending)
      funded_db.ledger_entries
      (resolve_one default_config draws 100 (world WithdrawalStatus.pending)).db
resolve_one_pending_example =
    resolve_one_pending default_config draws (world WithdrawalStatus.pending) 100 refl refl
      (row-CanCompensate WithdrawalStatus.pending)

-- Two thousand seconds after its last update: the hard timeout has passed.
resolve_one_unreferenced_example :
    let w = row WithdrawalStatus.submitted in
    let s = world WithdrawalStatus.submitted in
    let s' = resolve_one default_config draws 100 s in
    (2000 ≤ 0 + 1800 → s' ≡ s)
    × (0 + 1800 < 2000
        → (status_in 100 s'.db.withdrawals ≡ some WithdrawalStatus.failed)
          × (s'.db.ledger_entries
              ≡ reversal_credit (env_at 3) w ∷ reversal_debit (env_at 3) w ∷ s.db.ledger_entries)
          × (s'.rail ≡ s.rail)
          × (s'.circuit ≡ s.circuit))
resolve_one_unreferenced_example =
    resolve_one_unreferenced default_config draws (world WithdrawalStatus.submitted) 100 refl refl
      refl (row-CanCompensate WithdrawalStatus.submitted)
