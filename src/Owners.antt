-- ===== src/Owners.antt =====
-- Who owns what: only a registration writes the table of users, and only the opening of an account
-- that of accounts. Every other transaction leaves both as they are.
pub mod Lookups
use miniwallet.Base.{
  ℕ, ◌≡◌, ◌≢◌, refl, String, Bool, true, false, Option, none, some, List, [], ◌∷◌, any, str_eq,
  ◌==◌, not, arith, find?, sym, ◌∙◌, inl, inr, Bool-cases, str_eq_refl, str_eq_iff, IsOneOf,
  any-false, if◌then◌else◌, if_intro,
}
use miniwallet.Base.Int.{ℤ, pos, ltb_ℤ}
use miniwallet.Errors.{Error, Result, ok, raise}
use miniwallet.Models.{User, Account, Withdrawal, Transfer}
use miniwallet.Db.{
  Db, Env, insert_user, insert_account, insert_ledger_entry, insert_transfer, insert_deposit,
  insert_withdrawal, publish_event, same_user,
}
use miniwallet.Schemas.{HashInput, Cache, Session, Cached}
use miniwallet.Accounts.{
  account_row, opened, open_account, seed, write_seed, find_account, find_account_by_user,
}
use miniwallet.Auth.{get_by_email}
use miniwallet.Circuit.{Config}
use miniwallet.Recovery.{Draws, resolve_one}
use miniwallet.Recovery.Sweep.{resolve_one_keeps}
use miniwallet.System.{
  Reach, starts, steps, registers, opens, seeds, transfers, deposits, reserves, submits, completes,
  refunds, recovers,
}
use miniwallet.Transfers.{
  Request as TransferRequest, transfer, attempt, write_completed, write_failed,
}
use miniwallet.Deposits.{Webhook, simulate_deposit, write_deposit, reject, update_deposit}
use miniwallet.Withdrawals.{
  World, Request, reserved, reserve, write_initiated, update_withdrawal, submit, complete,
  compensate,
}

-- The two tables are as they were.
pub record Owned (db db' : Db) : Type 0 where
  pub users : db'.users ≡ db.users
  pub accounts : db'.accounts ≡ db.accounts

reserve-Owned :
    (env : Env) (r : Request) (db : Db) {w : Withdrawal} {db' : Db}
    → reserve env r db ≡ reserved w db'
    → Owned db db'
unfolding reserve write_initiated insert_withdrawal insert_ledger_entry publish_event
reserve-Owned env r db h = ground arith

compensate-Owned :
    (env : Env) (w : Withdrawal) (code : String) (actor : Option ℕ) (db : Db) {db' : Db}
    → compensate env w code actor db ≡ ok db'
    → Owned db db'
unfolding compensate insert_ledger_entry publish_event update_withdrawal
compensate-Owned env w code actor db h = ground arith

seed-Owned :
    (env : Env) (i : ℕ) (x : ℤ) (k : String) (u : ℕ) (db : Db) → Owned db (seed env i x k u db).1
unfolding seed write_seed insert_ledger_entry publish_event
seed-Owned env i x k u db = ground arith

simulate_deposit-Owned :
    (env : Env) (w : Webhook) (db : Db) → Owned db (simulate_deposit env w db).1
unfolding simulate_deposit insert_deposit reject write_deposit insert_ledger_entry publish_event
    update_deposit
simulate_deposit-Owned env w db = ground arith

transfer-Owned :
    (sha256 : HashInput → String) (env : Env) (r : TransferRequest) (s : Session)
    → Owned s.db (transfer sha256 env r s).1.db
unfolding transfer attempt write_completed write_failed insert_transfer insert_ledger_entry
    publish_event
transfer-Owned sha256 env r s = ground arith

Owned-trans : {db mid db' : Db} → Owned db mid → Owned mid db' → Owned db db'
Owned-trans p q = record { users = q.users ∙ p.users; accounts = q.accounts ∙ p.accounts }

submit-Owned : (now : ℕ) (w : Withdrawal) (db : Db) → Owned db (submit now w db)
unfolding submit update_withdrawal
submit-Owned now w db = record { users = refl; accounts = refl }

complete-Owned :
    (env : Env) (w : Withdrawal) (reference : String) (actor : Option ℕ) (db : Db)
    → Owned db (complete env w reference actor db)
unfolding complete update_withdrawal publish_event
complete-Owned env w reference actor db = record { users = refl; accounts = refl }

recovered-Owned :
    (env : Env) (w : Withdrawal) (reference : String) (db : Db)
    → Owned db (miniwallet.Recovery.complete env w reference db)
unfolding miniwallet.Recovery.complete update_withdrawal publish_event
recovered-Owned env w reference db = record { users = refl; accounts = refl }

resolve_one-Owned :
    (cfg : Config) (d : Draws) (i : ℕ) (s : World) → Owned s.db (resolve_one cfg d i s).db
resolve_one-Owned cfg d i s =
    resolve_one_keeps (Owned s.db)
      (λ env w reference db h. Owned-trans h (recovered-Owned env w reference db))
      (λ env w code db db' h e. Owned-trans h (compensate-Owned env w code none db e))
      (λ now w db h. Owned-trans h (submit-Owned now w db)) cfg d i s
      (record { users = refl; accounts = refl })
