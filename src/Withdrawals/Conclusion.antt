-- ===== src/Withdrawals/Conclusion.antt =====
-- How a run of the saga ends, and that the ledger stays sound on every path.
use miniwallet.Base.{ℕ, ◌≡◌, refl, Option, none, some, String, arith}
use miniwallet.Errors.{Error, Result, ok, raise}
use miniwallet.Models.{Withdrawal}
use miniwallet.Db.{Db, Env, publish_event}
use miniwallet.Ledger.Sums.{IsSound}
use miniwallet.Circuit.{Config, CallReply, result, rail_failed, circuit_open}
use miniwallet.Schemas.{HashInput, WithdrawalResponse, Cached}
use miniwallet.Withdrawals.{
  Request, World, Reservation, reserved, ended, reserve, update_withdrawal, submit, complete,
  compensate, set_submitted, set_completed, set_failed, withdrawal_to_response,
}
use miniwallet.Withdrawals.Steps.{
  Draws, send, conclude, continue, create_withdrawal, compensated, proceed, by_cache,
}
use miniwallet.Withdrawals.Refund.{reserve-IsSound, compensate-IsSound}

-- The three ways in which the last transaction ends.
pub data Conclusion (d : Draws) (w : Withdrawal) (actor : Option ℕ) (db : Db)
    (p : Result WithdrawalResponse × World) : Type 0 where
  completes :
      (reference : String)
      → p.0 ≡ ok (withdrawal_to_response (set_completed (d.tx3.now 0) reference w))
      → p.1.db ≡ complete d.tx3 w reference actor db
      → Conclusion d w actor db p
  refunds :
      (code : String)
      → p.0 ≡ ok (withdrawal_to_response (set_failed (d.tx3.now 0) code w))
      → compensate d.tx3 w code actor db ≡ ok p.1.db
      → Conclusion d w actor db p
  raises :
      (code : String) (e : Error)
      → p.0 ≡ raise e
      → p.1.db ≡ db
      → compensate d.tx3 w code actor db ≡ raise e
      → Conclusion d w actor db p

compensated-Conclusion :
    (d : Draws) (w : Withdrawal) (actor : Option ℕ) (code : String) (s : World) (x : Result Db)
    → compensate d.tx3 w code actor s.db ≡ x
    → Conclusion d w actor s.db (compensated d w code s x)
compensated-Conclusion d w actor code s (ok db') e = refunds code refl e
compensated-Conclusion d w actor code s (raise err) e = raises code err refl refl e

conclude-Conclusion :
    (d : Draws) (w : Withdrawal) (actor : Option ℕ) (reply : CallReply) (s : World)
    → Conclusion d w actor s.db (conclude d w actor reply s)
unfolding conclude
conclude-Conclusion d w actor (result reference) s = completes reference refl refl
conclude-Conclusion d w actor (rail_failed code) s = compensated-Conclusion d w actor code s _ refl
conclude-Conclusion d w actor circuit_open s =
    compensated-Conclusion d w actor "CIRCUIT_OPEN" s _ refl

-- The database in which the saga concludes: TX 1's, with the row submitted.
pub continue-Conclusion :
    (sha256 : HashInput → String) (breaker : Option Config) (d : Draws) (r : Request)
    (w : Withdrawal) (s : World)
    → Conclusion d
        (set_submitted d.submitted_at w)
        r.actor_user_id
        (submit d.submitted_at w s.db)
        (continue sha256 breaker d r w s)
unfolding continue send
continue-Conclusion sha256 none d r w s =
    conclude-Conclusion d (set_submitted d.submitted_at w) r.actor_user_id _ _
continue-Conclusion sha256 (some cfg) d r w s =
    conclude-Conclusion d (set_submitted d.submitted_at w) r.actor_user_id _ _

Conclusion-IsSound :
    (d : Draws) (w : Withdrawal) (actor : Option ℕ) (db : Db)
    (p : Result WithdrawalResponse × World)
    → Conclusion d w actor db p
    → IsSound db.ledger_entries
    → IsSound p.1.db.ledger_entries
unfolding complete update_withdrawal publish_event
Conclusion-IsSound d w actor db p (completes reference _ e) h = rw e h
Conclusion-IsSound d w actor db p (refunds code _ e) h =
    compensate-IsSound d.tx3 w code actor db e h
Conclusion-IsSound d w actor db p (raises _ _ _ e _) h = rw e h

pub submit-ledger :
    (now : ℕ) (w : Withdrawal) (db : Db) → (submit now w db).ledger_entries ≡ db.ledger_entries
unfolding submit update_withdrawal
submit-ledger now w db = refl

pub complete-ledger :
    (env : Env) (w : Withdrawal) (reference : String) (actor : Option ℕ) (db : Db)
    → (complete env w reference actor db).ledger_entries ≡ db.ledger_entries
unfolding complete update_withdrawal publish_event
complete-ledger env w reference actor db = refl

proceed-IsSound :
    (sha256 : HashInput → String) (breaker : Option Config) (d : Draws) (r : Request) (s : World)
    (x : Reservation)
    → reserve d.tx1 r s.db ≡ x
    → IsSound s.db.ledger_entries
    → IsSound (proceed sha256 breaker d r s x).1.db.ledger_entries
proceed-IsSound sha256 breaker d r s (ended res) e h = h
proceed-IsSound sha256 breaker d r s (reserved w db') e h =
    Conclusion-IsSound d (set_submitted d.submitted_at w) r.actor_user_id
      (submit d.submitted_at w db') _
      (continue-Conclusion sha256 breaker d r w (record s { db = db' }))
      (rw submit-ledger (reserve-IsSound d.tx1 r s.db e h))

by_cache-IsSound :
    (sha256 : HashInput → String) (breaker : Option Config) (d : Draws) (r : Request) (s : World)
    (o : Option Cached)
    → IsSound s.db.ledger_entries
    → IsSound (by_cache sha256 breaker d r s o).1.db.ledger_entries
by_cache-IsSound sha256 breaker d r s none h = proceed-IsSound sha256 breaker d r s _ refl h
by_cache-IsSound sha256 breaker d r s (some c) h = ground arith

-- A whole run of `create_withdrawal` keeps the books balanced and overdraws no account but the
-- system's, whatever the rail and the circuit breaker do, errors included.
pub withdrawal-IsSound :
    (sha256 : HashInput → String) (breaker : Option Config) (d : Draws) (r : Request) (s : World)
    → IsSound s.db.ledger_entries
    → IsSound (create_withdrawal sha256 breaker d r s).1.db.ledger_entries
unfolding create_withdrawal
withdrawal-IsSound sha256 breaker d r s h = by_cache-IsSound sha256 breaker d r s _ h
