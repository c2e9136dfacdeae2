-- ===== src/Withdrawals/Movement.antt =====
-- The transactions of the saga as changes of the books.
use miniwallet.Base.{
  ℕ, ◌≡◌, inl, inr, refl, true, Option, none, some, List, [], ◌∷◌, map, ◌==◌, if◌then◌else◌,
  str_eq_refl, String, arith,
}
use miniwallet.Base.Int.{int_laws}
use miniwallet.Errors.{ok}
use miniwallet.Events.{uuid, decimal, text, withdrawal_initiated, withdrawal_failed}
use miniwallet.Models.{debit, credit, Withdrawal, LedgerEntry}
use miniwallet.Db.{
  Db, Env, insert_withdrawal, insert_ledger_entry, publish_event, outbox_row, system_account_id,
  has_account, ledger_key_taken,
}
use miniwallet.Ledger.{get_balance}
use miniwallet.Withdrawals.{
  Request, reserved, write_initiated, reserve, update_withdrawal, submit, complete, compensate,
  set_submitted, set_completed, set_failed, initial_row, leg, reversal_key, reversal_credit,
  reversal_debit,
}
use miniwallet.Withdrawals.Refund.{reserve-Reserved, compensate-Refunded}
use miniwallet.Activity.Replay.{
  shown, shown-withdrawal_initiated, shown-withdrawal_completed, shown-withdrawal_failed,
}
use miniwallet.Activity.Readable.{
  same_accounts, Emits-one, Emits-nothing, IsReadable-withdrawal_initiated,
  IsReadable-withdrawal_completed, IsReadable-withdrawal_failed,
}
use miniwallet.Backing.Growth.{stands_behind}
use miniwallet.Backing.Tables.{adds_withdrawal, changes_withdrawal, restates, restated}
use miniwallet.Bank.{Change, keeps, posts}

reserve-outbox :
    (env : Env) (r : Request) (db : Db) {w : Withdrawal} {db' : Db}
    → reserve env r db ≡ reserved w db'
    → db'.outbox
      ≡ outbox_row env "withdrawal.events" "withdrawal.initiated"
          (withdrawal_initiated
            (uuid (env.uuid4 0))
            (uuid r.account_id)
            (decimal r.amount)
            (text r.currency)
            (text r.destination_type)
            (text "withdrawal"))
          r.actor_user_id
          none
        ∷ db.outbox
unfolding reserve write_initiated insert_withdrawal insert_ledger_entry publish_event
reserve-outbox env r db h = ground arith

reserve-known :
    (env : Env) (r : Request) (db : Db) {w : Withdrawal} {db' : Db}
    → reserve env r db ≡ reserved w db'
    → has_account r.account_id db' ≡ true
unfolding reserve write_initiated insert_withdrawal insert_ledger_entry publish_event has_account
reserve-known env r db h = ground arith

reserve-tables :
    (env : Env) (r : Request) (db : Db) {w : Withdrawal} {db' : Db}
    → reserve env r db ≡ reserved w db'
    → (db'.transfers ≡ db.transfers) × (db'.deposits ≡ db.deposits)
unfolding reserve write_initiated insert_withdrawal insert_ledger_entry publish_event
reserve-tables env r db h = ground arith

pub reserve-Change :
    (env : Env) (r : Request) (db : Db) {w : Withdrawal} {db' : Db}
    → reserve env r db ≡ reserved w db'
    → Change db db'
unfolding get_balance shown
reserve-Change env r db h =
    let f = reserve-Reserved env r db h in
    posts r.account_id system_account_id r.amount f.positive (inr f.funded)
      (λ a. rw f.ledger (grind (int_laws, f.user)))
      (λ a user.
        rw
          (
            reserve-outbox env r db h,
            shown-withdrawal_initiated env "withdrawal.events" r.actor_user_id none db.outbox a
                (env.uuid4 0) r.account_id r.amount r.currency r.destination_type "withdrawal",
          )
          (ground (arith, user)))
      (Emits-one _ (reserve-outbox env r db h) refl (same_accounts f.accounts) (
        IsReadable-withdrawal_initiated env r.actor_user_id none _ (env.uuid4 0) r.account_id
          r.amount r.currency r.destination_type "withdrawal" (reserve-known env r db h)))
      (λ b.
        let same = reserve-tables env r db h in
        adds_withdrawal b (initial_row env r)
          (leg env (env.uuid4 3) (env.uuid4 1) (initial_row env r) debit r.account_id "withdrawal"
              none
            ∷ leg env (env.uuid4 2) (env.uuid4 1) (initial_row env r) credit system_account_id
                "withdrawal" none
            ∷ [])
          f.ledger same.0 same.1 f.withdrawals
          (record {
            taken =
                stands_behind
                  (leg env (env.uuid4 3) (env.uuid4 1) (initial_row env r) debit r.account_id
                    "withdrawal" none)
                  (inl refl) refl;
            received =
                stands_behind
                  (leg env (env.uuid4 2) (env.uuid4 1) (initial_row env r) credit system_account_id
                    "withdrawal" none)
                  (inr (inl refl)) refl;
            refunded = tt;
          }))

pub submit-Change : (now : ℕ) (w : Withdrawal) (db : Db) → Change db (submit now w db)
unfolding submit update_withdrawal get_balance shown
submit-Change now w db =
    keeps (λ a. refl) (λ a _. refl) (Emits-nothing refl (same_accounts refl))
      (λ b.
        restates b w.id (set_submitted now) (λ v. (refl, refl, refl, λ l. tt)) refl refl refl refl)

pub complete-Change :
    (env : Env) (w : Withdrawal) (reference : String) (actor : Option ℕ) (db : Db)
    → Change db (complete env w reference actor db)
unfolding complete update_withdrawal publish_event get_balance shown
complete-Change env w reference actor db =
    keeps (λ a. refl)
      (λ a _. shown-withdrawal_completed env "withdrawal.events" actor none db.outbox a _ _ _ _ _ _)
      (Emits-one _ refl refl (same_accounts refl)
        (IsReadable-withdrawal_completed env actor none _ _ _ _ _ _ _))
      (λ b.
        restates b w.id (set_completed (env.now 0) reference) (λ v. (refl, refl, refl, λ l. tt))
          refl refl refl refl)

compensate-outbox :
    (env : Env) (w : Withdrawal) (code : String) (actor : Option ℕ) (db : Db) {db' : Db}
    → compensate env w code actor db ≡ ok db'
    → db'.outbox
      ≡ outbox_row env "withdrawal.events" "withdrawal.failed"
          (withdrawal_failed
            (uuid w.id)
            (uuid w.account_id)
            (decimal w.amount)
            (text w.currency)
            (text code)
            (text "withdrawal_reversal"))
          actor
          none
        ∷ db.outbox
unfolding compensate insert_ledger_entry publish_event update_withdrawal
compensate-outbox env w code actor db h = ground arith

-- What the foreign keys have found.
record Known (w : Withdrawal) (db db' : Db) : Type 0 where
  accounts : db'.accounts ≡ db.accounts
  known : has_account w.account_id db' ≡ true
  transfers : db'.transfers ≡ db.transfers
  deposits : db'.deposits ≡ db.deposits

compensate-withdrawals :
    (env : Env) (w : Withdrawal) (code : String) (actor : Option ℕ) (db : Db) {db' : Db}
    → compensate env w code actor db ≡ ok db'
    → db'.withdrawals
      ≡ map
          (λ (v : Withdrawal). if v.id == w.id then set_failed (env.now 0) code v else v)
          db.withdrawals
unfolding compensate insert_ledger_entry publish_event update_withdrawal
compensate-withdrawals env w code actor db h = ground arith

-- The reversal stands behind a row with the withdrawal's id.
refunded_key :
    (env : Env) (w : Withdrawal) (i : ℕ) (l : List LedgerEntry)
    → i ≡ w.id
    → ledger_key_taken (some (reversal_key i)) (reversal_credit env w ∷ l) ≡ true
refunded_key env w i l e = rw e (ground (arith, str_eq_refl (reversal_key w.id)))

compensate-Known :
    (env : Env) (w : Withdrawal) (code : String) (actor : Option ℕ) (db : Db) {db' : Db}
    → compensate env w code actor db ≡ ok db'
    → Known w db db'
unfolding compensate insert_ledger_entry publish_event update_withdrawal has_account
compensate-Known env w code actor db h = ground arith

pub compensate-Change :
    (env : Env) (w : Withdrawal) (code : String) (actor : Option ℕ) (db : Db) {db' : Db}
    → compensate env w code actor db ≡ ok db'
    → Change db db'
unfolding get_balance shown
compensate-Change env w code actor db h =
    let f = compensate-Refunded env w code actor db h in
    posts system_account_id w.account_id w.amount f.positive (inl refl)
      (λ a. rw f.ledger (grind int_laws))
      (λ a user.
        rw
          (
            compensate-outbox env w code actor db h,
            shown-withdrawal_failed env "withdrawal.events" actor none db.outbox a w.id w.account_id
                w.amount w.currency code "withdrawal_reversal",
          )
          (ground (arith, user)))
      (let k = compensate-Known env w code actor db h in
        Emits-one _ (compensate-outbox env w code actor db h) refl (same_accounts k.accounts) (
          IsReadable-withdrawal_failed env actor none _ w.id w.account_id w.amount w.currency code
            "withdrawal_reversal" k.known))
      (λ b.
        let k = compensate-Known env w code actor db h in
        changes_withdrawal b w.id (set_failed (env.now 0) code)
          (reversal_credit env w ∷ reversal_debit env w ∷ []) f.ledger k.transfers k.deposits
          (compensate-withdrawals env w code actor db h)
          (λ v same stands.
            restated _ v (set_failed (env.now 0) code v) refl refl refl
              (refunded_key env w v.id (reversal_debit env w ∷ db.ledger_entries) same) stands))
