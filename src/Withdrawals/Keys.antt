-- ===== src/Withdrawals/Keys.antt =====
-- Idempotency of `create_withdrawal`, and what becomes of a row that is completed late.
use miniwallet.Base.{
  ℕ, ◌≡◌, ◌≢◌, refl, Option, none, some, List, [], ◌∷◌, String, ◌==◌, if◌then◌else◌, str_eq_refl,
  map, arith,
}
use miniwallet.Base.Int.{◌+ℤ◌}
use miniwallet.Errors.{Result, ok, raise}
use miniwallet.Models.{Withdrawal, WithdrawalStatus}
use miniwallet.Db.{Db, Env, insert_ledger_entry, publish_event, system_account_id}
use miniwallet.Ledger.{get_balance}
use miniwallet.Circuit.{Config, CallReply, result, rail_failed, circuit_open}
use miniwallet.Schemas.{HashInput, Cached, withdrawal_response, cache_get, cache_set}
use miniwallet.Withdrawals.{
  Request, World, reserved, reserve, update_withdrawal, complete, compensate, set_failed,
  withdrawal_to_response,
}
use miniwallet.Withdrawals.Steps.{
  Draws, send, conclude, compensated, cache_key, request_hash, continue, create_withdrawal,
}
use miniwallet.Withdrawals.Refund.{compensate-Refunded}

send-cache :
    (breaker : Option Config) (d : Draws) (s : World) → (send breaker d s).1.cache ≡ s.cache
unfolding send
send-cache none d s = refl
send-cache (some cfg) d s = refl

compensated-cache :
    (d : Draws) (w : Withdrawal) (x : Result Db) (code : String) (s : World)
    → (compensated d w code s x).1.cache ≡ s.cache
compensated-cache d w (ok db) code s = refl
compensated-cache d w (raise e) code s = refl

conclude-cache :
    (d : Draws) (w : Withdrawal) (actor : Option ℕ) (reply : CallReply) (s : World)
    → (conclude d w actor reply s).1.cache ≡ s.cache
unfolding conclude
conclude-cache d w actor (result reference) s = refl
conclude-cache d w actor (rail_failed code) s = compensated-cache d w _ code s
conclude-cache d w actor circuit_open s = compensated-cache d w _ "CIRCUIT_OPEN" s

-- The entry that a run leaves in Redis: the response as it was when TX 1 had committed.
abbrev pending_entry : (HashInput → String) → Request → Withdrawal → Cached
pending_entry sha256 r w = record {
  request_hash = request_hash sha256 r;
  response = withdrawal_response (withdrawal_to_response w);
}

continue-cache :
    (sha256 : HashInput → String) (breaker : Option Config) (d : Draws) (r : Request)
    (w : Withdrawal) (s : World)
    → cache_get (cache_key sha256 r) (continue sha256 breaker d r w s).1.cache
      ≡ some (pending_entry sha256 r w)
unfolding continue cache_set cache_get
continue-cache sha256 breaker d r w s =
    rw (conclude-cache, send-cache) (ground (arith, str_eq_refl (cache_key sha256 r)))

-- While Redis keeps the key, the same request again is answered with the response as it was when the
-- first transaction had committed, and nothing changes: no second debit, and no second rail call.
pub withdrawal_cached :
    (sha256 : HashInput → String) (breaker : Option Config) (d d' : Draws) (r : Request) (s : World)
    {w : Withdrawal} {db' : Db}
    → cache_get (cache_key sha256 r) s.cache ≡ none
    → reserve d.tx1 r s.db ≡ reserved w db'
    → let s' = (create_withdrawal sha256 breaker d r s).1 in
      create_withdrawal sha256 breaker d' r s' ≡ (ok (withdrawal_to_response w), s')
unfolding create_withdrawal
withdrawal_cached sha256 breaker d d' r s {w} {db'} miss h =
    rw (miss, h, continue-cache sha256 breaker d r w (record s { db = db' }))
      (ground (arith, str_eq_refl (request_hash sha256 r)))

-- The status of a row.
abbrev pub status_in : ℕ → List Withdrawal → Option WithdrawalStatus
status_in i [] = none
status_in i (w ∷ l) = let rest = status_in i l in if w.id == i then some w.status else rest

-- An UPDATE that sets one status sets it in the row, and leaves the id.
pub status-map :
    (i : ℕ) (f : Withdrawal → Withdrawal) (st : WithdrawalStatus) (l : List Withdrawal)
    → ((w : Withdrawal) → ((f w).id ≡ w.id) × ((f w).status ≡ st))
    → status_in i l ≢ none
    → status_in i (map (λ (w : Withdrawal). if w.id == i then f w else w) l) ≡ some st
status-map i f st [] h known = absurd (known refl)
status-map i f st (w ∷ l) h known = ground (arith, h w, status-map i f st l h)

compensate-withdrawals :
    (env : Env) (w : Withdrawal) (code : String) (actor : Option ℕ) (db : Db) {db' : Db}
    → compensate env w code actor db ≡ ok db'
    → db'.withdrawals
      ≡ map
          (λ (v : Withdrawal). if v.id == w.id then set_failed (env.now 0) code v else v)
          db.withdrawals
unfolding compensate insert_ledger_entry publish_event update_withdrawal
compensate-withdrawals env w code actor db h = ground arith

-- A compensation marks the row failed.
pub compensate-status :
    (env : Env) (w : Withdrawal) (code : String) (actor : Option ℕ) (db : Db) {db' : Db}
    → status_in w.id db.withdrawals ≢ none
    → compensate env w code actor db ≡ ok db'
    → status_in w.id db'.withdrawals ≡ some WithdrawalStatus.failed
compensate-status env w code actor db known h =
    rw (compensate-withdrawals env w code actor db h)
      (status-map w.id _ WithdrawalStatus.failed _ (λ v. (refl, refl)) known)

-- A completion does not look at the row: for an account that is not the system's, one that comes
-- after a compensation of the same withdrawal has committed marks the row completed, while the account keeps the amount that was given back.
pub late_completion_keeps_refund :
    (env env' : Env) (w : Withdrawal) (code reference : String) (actor actor' : Option ℕ) (db : Db)
    {db' : Db}
    → w.account_id ≢ system_account_id
    → status_in w.id db.withdrawals ≢ none
    → compensate env w code actor db ≡ ok db'
    → let db'' = complete env' w reference actor' db' in
      (status_in w.id db''.withdrawals ≡ some WithdrawalStatus.completed)
      × (get_balance db'' w.account_id ≡ get_balance db w.account_id +ℤ w.amount)
unfolding complete update_withdrawal publish_event get_balance
late_completion_keeps_refund env env' w code reference actor actor' db {db'} user known h = (
  status-map w.id _ WithdrawalStatus.completed _ (λ v. (refl, refl))
      (λ e. cc (e, compensate-status env w code actor db known h)),
  rw (compensate-Refunded env w code actor db h).ledger (ground (arith, user)),
)
