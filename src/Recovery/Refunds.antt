-- ===== src/Recovery/Refunds.antt =====
-- The saga and the sweeper each have a compensation of their own.
use miniwallet.Base.{ℕ, ◌≡◌, ◌≢◌, sym, ◌∙◌, Option, none, String, List, ◌++◌}
use miniwallet.Errors.{Result, ok}
use miniwallet.Models.{LedgerEntry, Withdrawal}
use miniwallet.Db.{Db, Env}
use miniwallet.Withdrawals.{compensate as service_compensate}
use miniwallet.Withdrawals.Refund.{no_second_compensation}
use miniwallet.Recovery.{compensate}
use miniwallet.Recovery.Sweep.{compensate-service}

-- Who refunds: a request's saga, on behalf of its actor, or the sweeper.
pub data Refunder : Type 0 where
  by_saga : Option ℕ → Refunder
  by_sweeper : Refunder

-- `_compensate` of withdrawal_service.py, or that of saga_recovery.py.
abbrev pub refund : Refunder → Env → Withdrawal → String → Db → Result Db
refund (by_saga actor) env w code db = service_compensate env w code actor db
refund by_sweeper env w code db = compensate env w code db

abbrev actor_of : Refunder → Option ℕ
actor_of (by_saga actor) = actor
actor_of by_sweeper = none

refund-service :
    (who : Refunder) (env : Env) (w : Withdrawal) (code : String) (db : Db) {db' : Db}
    → refund who env w code db ≡ ok db'
    → service_compensate env w code (actor_of who) db ≡ ok db'
refund-service (by_saga actor) env w code db h = h
refund-service by_sweeper env w code db h = sym (compensate-service env w code db) ∙ h

-- A withdrawal is refunded at most once: after a compensation of the saga or of the sweeper has
-- committed, none of either, of a withdrawal with the same id, commits on a database whose ledger
-- has only grown since.
pub no_double_refund :
    (who who' : Refunder) (env env' : Env) (w w' : Withdrawal) (code code' : String) (db later : Db)
    (m : List LedgerEntry) {db' db'' : Db}
    → refund who env w code db ≡ ok db'
    → later.ledger_entries ≡ m ++ db'.ledger_entries
    → w'.id ≡ w.id
    → refund who' env' w' code' later ≢ ok db''
no_double_refund who who' env env' w w' code code' db later m h grown same again =
    no_second_compensation env env' w w' code code' (actor_of who) (actor_of who') db later m
      (refund-service who env w code db h) grown same
      (refund-service who' env' w' code' later again)
