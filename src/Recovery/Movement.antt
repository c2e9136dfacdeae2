-- ===== src/Recovery/Movement.antt =====
-- The sweep as changes of the books.
use miniwallet.Base.{ℕ, refl, none, String, Bool}
use miniwallet.Models.{Withdrawal}
use miniwallet.Db.{Db, Env, publish_event}
use miniwallet.Ledger.{get_balance}
use miniwallet.Circuit.{Config}
use miniwallet.Withdrawals.{World, update_withdrawal}
use miniwallet.Withdrawals.Movement.{submit-Change, compensate-Change}
use miniwallet.Recovery.{Draws, set_recovered, complete, resolve_one, recover_stuck_withdrawals}
use miniwallet.Recovery.Sweep.{resolve_one_keeps, recover_stuck_withdrawals_keeps}
use miniwallet.Activity.Replay.{shown, shown-withdrawal_completed}
use miniwallet.Activity.Readable.{same_accounts, Emits-one, IsReadable-withdrawal_completed}
use miniwallet.Backing.Tables.{restates}
use miniwallet.Bank.{Change, keeps, Changes, none_yet, and_then}

complete-Change :
    (env : Env) (w : Withdrawal) (reference : String) (db : Db)
    → Change db (complete env w reference db)
unfolding complete update_withdrawal publish_event get_balance shown
complete-Change env w reference db =
    keeps (λ a. refl)
      (λ a _. shown-withdrawal_completed env "withdrawal.events" none none db.outbox a _ _ _ _ _ _)
      (Emits-one _ refl refl (same_accounts refl)
        (IsReadable-withdrawal_completed env none none _ _ _ _ _ _ _))
      (λ b.
        restates b w.id (set_recovered (env.now 0) reference) (λ v. (refl, refl, refl, λ l. tt))
          refl refl refl refl)

pub resolve_one-Changes :
    (cfg : Config) (d : Draws) (i : ℕ) (s : World) → Changes s.db (resolve_one cfg d i s).db
resolve_one-Changes cfg d i s =
    resolve_one_keeps (Changes s.db)
      (λ env w reference db h. and_then h (complete-Change env w reference db))
      (λ env w code db db' h e. and_then h (compensate-Change env w code none db e))
      (λ now w db h. and_then h (submit-Change now w db)) cfg d i s none_yet

pub recover_stuck_withdrawals-Changes :
    (cfg : Config) (locked : ℕ → Bool) (now : ℕ) (draws : ℕ → Draws) (s : World)
    → Changes s.db (recover_stuck_withdrawals cfg locked now draws s).db
recover_stuck_withdrawals-Changes cfg locked now draws s =
    recover_stuck_withdrawals_keeps (Changes s.db)
      (λ env w reference db h. and_then h (complete-Change env w reference db))
      (λ env w code db db' h e. and_then h (compensate-Change env w code none db e))
      (λ now w db h. and_then h (submit-Change now w db)) cfg locked now draws s none_yet
