-- ===== src/Recovery/Laws.antt =====
-- What one resolution of a pending withdrawal does: the withdrawal ends.
use miniwallet.Base.{
  ℕ, ◌≡◌, ◌≢◌, ◌⊎◌, inl, inr, refl, sym, ◌∙◌, Option, none, some, List, [], ◌∷◌, true, false,
  String, ◌==◌, not, if_intro, find?, arith,
}
use miniwallet.Base.Int.{pos, ◌≤ℤ◌}
use miniwallet.Errors.{Error, Result, ok, raise}
use miniwallet.Models.{LedgerEntry, Withdrawal, WithdrawalStatus}
use miniwallet.Db.{
  Db, Env, has_account, insert_ledger_entry, publish_event, system_account_id, ledger_key_taken,
}
use miniwallet.Rail.{Rail}
use miniwallet.Circuit.{
  Circuit, Config, CallReply, result, rail_failed, circuit_open, is_call_allowed,
}
use miniwallet.Withdrawals.{
  World, update_withdrawal, submit, set_submitted, compensate as service_compensate, reversal_key,
  reversal_debit, reversal_credit,
}
use miniwallet.Withdrawals.Refund.{compensate-Refunded}
use miniwallet.Withdrawals.Keys.{status_in, status-map, compensate-status}
use miniwallet.Recovery.{
  Draws, complete, settle_pending, recover_pending, find_withdrawal, by_status, commit, resolve_one,
  compensate,
}
use miniwallet.Recovery.Sweep.{compensate-service}

-- A withdrawal that can be compensated: it has a positive amount, its account and the system's are
-- known, and it has not been reversed.
pub record CanCompensate (w : Withdrawal) (db : Db) : Type 0 where
  pub positive : pos 1 ≤ℤ w.amount
  pub account : has_account w.account_id db ≡ true
  pub system : has_account system_account_id db ≡ true
  pub unreversed : ledger_key_taken (some (reversal_key w.id)) db.ledger_entries ≡ false

-- What a transaction that resolves a withdrawal has done: it committed, and the withdrawal is
-- completed with the ledger as it was, or failed with the reversal's two legs in the ledger.
abbrev pub Ends : Env → Withdrawal → List LedgerEntry → Db → Type 0
Ends env w l db' =
    (status_in w.id db'.withdrawals ≡ some WithdrawalStatus.completed) × (db'.ledger_entries ≡ l)
    ⊎ (status_in w.id db'.withdrawals ≡ some WithdrawalStatus.failed)
      × (db'.ledger_entries ≡ reversal_credit env w ∷ reversal_debit env w ∷ l)

abbrev Resolved : Env → Withdrawal → List LedgerEntry → Result Db → Type 0
Resolved env w l (ok db') = Ends env w l db'
Resolved env w l (raise e) = ⊥

pub compensate_can :
    (env : Env) (w : Withdrawal) (code : String) (actor : Option ℕ) (db : Db) (e : Error)
    → CanCompensate w db
    → service_compensate env w code actor db ≢ raise e
unfolding service_compensate insert_ledger_entry has_account
compensate_can env w code actor db e c h = ground arith

compensated-Resolved :
    (env : Env) (w : Withdrawal) (code : String) (db : Db) (x : Result Db)
    → CanCompensate w db
    → status_in w.id db.withdrawals ≢ none
    → compensate env w code db ≡ x
    → Resolved env w db.ledger_entries x
compensated-Resolved env w code db (ok db') c known e =
    let e' = sym (compensate-service env w code db) ∙ e in
    inr (
      compensate-status env w code none db known e',
      (compensate-Refunded env w code none db e').ledger,
    )
compensated-Resolved env w code db (raise err) c known e =
    compensate_can env w code none db err c (sym (compensate-service env w code db) ∙ e)

complete-Resolved :
    (env : Env) (w : Withdrawal) (reference : String) (db : Db)
    → status_in w.id db.withdrawals ≢ none
    → Resolved env w db.ledger_entries (ok (complete env w reference db))
unfolding complete update_withdrawal publish_event
complete-Resolved env w reference db known =
    inl (status-map w.id _ WithdrawalStatus.completed _ (λ v. (refl, refl)) known, refl)

settle_pending-Resolved :
    (d : Draws) (w : Withdrawal) (reply : CallReply) (db : Db)
    → CanCompensate w db
    → status_in w.id db.withdrawals ≢ none
    → Resolved d.tx w db.ledger_entries (settle_pending d w reply db)
unfolding settle_pending
settle_pending-Resolved d w (result reference) db c known =
    complete-Resolved d.tx w reference db known
settle_pending-Resolved d w (rail_failed code) db c known =
    compensated-Resolved d.tx w code db _ c known refl
settle_pending-Resolved d w circuit_open db c known =
    compensated-Resolved d.tx w "CIRCUIT_OPEN" db _ c known refl

submit-status :
    (now : ℕ) (w : Withdrawal) (db : Db)
    → status_in w.id db.withdrawals ≢ none
    → status_in w.id (submit now w db).withdrawals ≢ none
unfolding submit update_withdrawal
submit-status now w db known e = cc (
  e,
  status-map w.id (set_submitted now) WithdrawalStatus.submitted db.withdrawals (λ v. (refl, refl))
      known,
)

submit-CanCompensate :
    (now : ℕ) (w : Withdrawal) (db : Db)
    → CanCompensate w db
    → CanCompensate (set_submitted now w) (submit now w db)
unfolding submit update_withdrawal has_account
submit-CanCompensate now w db c = record {
  positive = c.positive;
  account = c.account;
  system = c.system;
  unreversed = c.unreversed;
}

recover_pending-Resolved :
    (cfg : Config) (d : Draws) (w : Withdrawal) (s : World)
    → CanCompensate w s.db
    → status_in w.id s.db.withdrawals ≢ none
    → Resolved d.tx w s.db.ledger_entries (recover_pending cfg d w s).0
unfolding recover_pending submit update_withdrawal
recover_pending-Resolved cfg d w s c known =
    if_intro (λ (p : Result Db × Circuit × Rail). Resolved d.tx w s.db.ledger_entries p.0)
      (not (is_call_allowed cfg d.checked_at s.circuit)) _ _
      (λ _. compensated-Resolved d.tx w "CIRCUIT_OPEN" s.db _ c known refl)
      (λ _.
        settle_pending-Resolved d (set_submitted d.submitted_at w) _ (submit d.submitted_at w s.db)
          (submit-CanCompensate d.submitted_at w s.db c)
          (submit-status d.submitted_at w s.db known))

commit-Ends :
    (env : Env) (w : Withdrawal) (s : World) (p : Result Db × Circuit × Rail)
    → Resolved env w s.db.ledger_entries p.0
    → Ends env w s.db.ledger_entries (commit s p).db
commit-Ends env w s (ok db', c, rail) h = h
commit-Ends env w s (raise e, c, rail) h = absurd h

pub find-status :
    (i : ℕ) (l : List Withdrawal) {w : Withdrawal}
    → find? (λ (v : Withdrawal). v.id == i) l ≡ some w
    → (w.id ≡ i) × (status_in i l ≡ some w.status)
find-status i [] {w} h = ground arith
find-status i (v ∷ l) {w} h = ground (arith, find-status i l {w = w})

by_status-Ends :
    (cfg : Config) (d : Draws) (w : Withdrawal) (s : World) (st : WithdrawalStatus)
    → st ≡ WithdrawalStatus.pending
    → CanCompensate w s.db
    → status_in w.id s.db.withdrawals ≢ none
    → Ends d.tx w s.db.ledger_entries (by_status cfg d w s st).db
by_status-Ends cfg d w s WithdrawalStatus.pending e c known =
    commit-Ends d.tx w s _ (recover_pending-Resolved cfg d w s c known)
by_status-Ends cfg d w s WithdrawalStatus.submitted e c known = absurd (ground (arith, e))
by_status-Ends cfg d w s WithdrawalStatus.completed e c known = absurd (ground (arith, e))
by_status-Ends cfg d w s WithdrawalStatus.failed e c known = absurd (ground (arith, e))

-- A pending withdrawal that can be compensated has ended when its resolution is over, whatever the
-- rail and the circuit breaker do: it is completed and the ledger is as it was, or it is failed and
-- the ledger has the two legs of its reversal.
pub resolve_one_pending :
    (cfg : Config) (d : Draws) (s : World) (i : ℕ) {w : Withdrawal}
    → find_withdrawal i s.db ≡ some w
    → w.status ≡ WithdrawalStatus.pending
    → CanCompensate w s.db
    → Ends d.tx w s.db.ledger_entries (resolve_one cfg d i s).db
unfolding resolve_one
resolve_one_pending cfg d s i {w} found pending c = rw found (
    by_status-Ends cfg d w s w.status pending c
      (λ e. ground (arith, e, find-status i s.db.withdrawals found)))
