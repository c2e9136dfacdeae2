-- ===== src/Withdrawals/Saga.antt =====
-- The whole saga in one request: all or nothing.
use miniwallet.Base.{ℕ, ◌≡◌, ◌≢◌, refl, Option, none, some, Bool, true, false, String, arith}
use miniwallet.Base.Int.{pos, ◌≤ℤ◌}
use miniwallet.Errors.{Error, Result, ok, raise}
use miniwallet.Models.{Withdrawal, WithdrawalStatus}
use miniwallet.Db.{
  Db, Env, has_account, insert_withdrawal, insert_ledger_entry, publish_event, system_account_id,
  ledger_key_taken, find_withdrawal_by_key,
}
use miniwallet.Ledger.{get_balance}
use miniwallet.Circuit.{Config}
use miniwallet.Schemas.{HashInput, WithdrawalResponse, cache_get}
use miniwallet.Withdrawals.{
  Request, World, Reservation, reserved, ended, write_initiated, reserve, update_withdrawal, submit,
  complete, compensate, reversal_key, set_submitted, withdrawal_to_response,
}
use miniwallet.Withdrawals.Steps.{Draws, cache_key, create_withdrawal, proceed}
use miniwallet.Withdrawals.Refund.{reserve-Reserved, reserve-balance, compensate-reserve, debited}
use miniwallet.Withdrawals.Keys.{status_in, status-map, compensate-status}
use miniwallet.Withdrawals.Conclusion.{Conclusion, completes, refunds, raises, continue-Conclusion}

-- What must hold for TX 1 to commit, and for a compensation to commit after it.
pub record CanWithdraw (env : Env) (r : Request) (db : Db) : Type 0 where
  pub positive : pos 1 ≤ℤ r.amount
  pub user : r.account_id ≢ system_account_id
  pub account : has_account r.account_id db ≡ true
  pub system : has_account system_account_id db ≡ true
  pub funded : r.amount ≤ℤ get_balance db r.account_id
  pub new_key : find_withdrawal_by_key r.idempotency_key db ≡ none
  pub no_reversal : ledger_key_taken (some (reversal_key (env.uuid4 0))) db.ledger_entries ≡ false

abbrev is_reserved : Reservation → Bool
is_reserved (reserved _ _) = true
is_reserved (ended _) = false

reserve_commits :
    (env : Env) (r : Request) (db : Db)
    → CanWithdraw env r db
    → is_reserved (reserve env r db) ≡ true
unfolding reserve insert_withdrawal write_initiated insert_ledger_entry has_account
reserve_commits env r db c = ground arith

compensate_commits :
    (env env' : Env) (r : Request) (db : Db) (now : ℕ) (code : String) (actor : Option ℕ)
    (e : Error) {w : Withdrawal} {db' : Db}
    → CanWithdraw env r db
    → reserve env r db ≡ reserved w db'
    → compensate env' (set_submitted now w) code actor (submit now w db') ≢ raise e
unfolding compensate submit update_withdrawal insert_ledger_entry has_account
compensate_commits env env' r db now code actor e c h raised =
    ground (arith, reserve-Reserved env r db h, c.no_reversal)

-- What a run leaves of every balance: a completed withdrawal has taken the amount from the account
-- to the system's, a failed one has left every balance as it was, and there is no third outcome.
abbrev pub Settled : Request → Db → Db → WithdrawalStatus → Type 0
Settled r db db' WithdrawalStatus.completed =
    (a : ℕ) → get_balance db' a ≡ debited r.account_id r.amount db a
Settled r db db' WithdrawalStatus.failed = (a : ℕ) → get_balance db' a ≡ get_balance db a
Settled r db db' _ = ⊥

-- The row says what the response says.
abbrev pub Recorded : Db → WithdrawalResponse → Type 0
Recorded db' t = status_in t.withdrawal_id db'.withdrawals ≡ some t.status

abbrev pub Leaves : Request → Db → Db → Result WithdrawalResponse → Type 0
Leaves r db db' (ok t) = Settled r db db' t.status × Recorded db' t
Leaves r db db' (raise e) = ⊥

submitted_row :
    (env : Env) (r : Request) (db : Db) (now : ℕ) {w : Withdrawal} {db' : Db}
    → reserve env r db ≡ reserved w db'
    → status_in w.id (submit now w db').withdrawals ≢ none
unfolding submit update_withdrawal
submitted_row env r db now h none_there =
    let f = reserve-Reserved env r db h in ground (arith, f.row, f.withdrawals, none_there)

complete-status :
    (env : Env) (w : Withdrawal) (reference : String) (actor : Option ℕ) (db : Db)
    → status_in w.id db.withdrawals ≢ none
    → status_in w.id (complete env w reference actor db).withdrawals
      ≡ some WithdrawalStatus.completed
unfolding complete update_withdrawal publish_event
complete-status env w reference actor db known =
    status-map w.id _ WithdrawalStatus.completed _ (λ v. (refl, refl)) known

completed-Settled :
    (d : Draws) (r : Request) (db db' : Db) (w : Withdrawal) (reference : String)
    → reserve d.tx1 r db ≡ reserved w db'
    → Settled r db
        (complete d.tx3
          (set_submitted d.submitted_at w)
          reference
          r.actor_user_id
          (submit d.submitted_at w db'))
        WithdrawalStatus.completed
unfolding complete submit update_withdrawal publish_event get_balance
completed-Settled d r db db' w reference h a = reserve-balance d.tx1 r db h a

refunded-Settled :
    (d : Draws) (r : Request) (db db' : Db) (w : Withdrawal) (code : String) {after : Db}
    → reserve d.tx1 r db ≡ reserved w db'
    → compensate d.tx3
        (set_submitted d.submitted_at w)
        code
        r.actor_user_id
        (submit d.submitted_at w db')
      ≡ ok after
    → Settled r db after WithdrawalStatus.failed
unfolding submit update_withdrawal
refunded-Settled d r db db' w code h e a =
    let f = reserve-Reserved d.tx1 r db h in
    compensate-reserve d.tx1 d.tx3 r db (set_submitted d.submitted_at w) code r.actor_user_id
      (submit d.submitted_at w db') h refl (ground (arith, f.row)) (ground (arith, f.row)) e a

Conclusion-Leaves :
    (d : Draws) (r : Request) (db db' : Db) (w : Withdrawal) (p : Result WithdrawalResponse × World)
    → CanWithdraw d.tx1 r db
    → reserve d.tx1 r db ≡ reserved w db'
    → Conclusion d (set_submitted d.submitted_at w) r.actor_user_id (submit d.submitted_at w db') p
    → Leaves r db p.1.db p.0
unfolding withdrawal_to_response
Conclusion-Leaves d r db db' w p c h (completes reference e₀ e) =
    let known = submitted_row d.tx1 r db d.submitted_at h in
    rw (e₀, e)
      (
        completed-Settled d r db db' w reference h,
        complete-status d.tx3 (set_submitted d.submitted_at w) reference r.actor_user_id
            (submit d.submitted_at w db') known,
      )
Conclusion-Leaves d r db db' w p c h (refunds code e₀ e) =
    let known = submitted_row d.tx1 r db d.submitted_at h in
    rw e₀ (
      refunded-Settled d r db db' w code h e,
      compensate-status d.tx3 (set_submitted d.submitted_at w) code r.actor_user_id
          (submit d.submitted_at w db') known e,
    )
Conclusion-Leaves d r db db' w p c h (raises code err e₀ _ e) =
    absurd (compensate_commits d.tx1 d.tx3 r db d.submitted_at code r.actor_user_id err c h e)

proceed-Leaves :
    (sha256 : HashInput → String) (breaker : Option Config) (d : Draws) (r : Request) (s : World)
    (x : Reservation)
    → CanWithdraw d.tx1 r s.db
    → reserve d.tx1 r s.db ≡ x
    → let (res, s') = proceed sha256 breaker d r s x in Leaves r s.db s'.db res
proceed-Leaves sha256 breaker d r s (ended res) c e = cc (reserve_commits d.tx1 r s.db c, e)
proceed-Leaves sha256 breaker d r s (reserved w db') c e =
    Conclusion-Leaves d r s.db db' w _ c e
      (continue-Conclusion sha256 breaker d r w (record s { db = db' }))

-- All or nothing: a withdrawal whose key is not in Redis, whose first transaction can commit, and
-- whose id has no reversal in the ledger is completed or failed when the call returns, in the
-- response and in its row alike, whatever the rail and the circuit breaker do. If completed, the
-- account has the amount less and the system's the amount more; if failed, every balance is as it
-- was.
pub withdrawal_all_or_nothing :
    (sha256 : HashInput → String) (breaker : Option Config) (d : Draws) (r : Request) (s : World)
    → cache_get (cache_key sha256 r) s.cache ≡ none
    → CanWithdraw d.tx1 r s.db
    → let (res, s') = create_withdrawal sha256 breaker d r s in Leaves r s.db s'.db res
unfolding create_withdrawal
withdrawal_all_or_nothing sha256 breaker d r s miss c =
    rw miss (proceed-Leaves sha256 breaker d r s _ c refl)
