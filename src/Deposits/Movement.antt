-- ===== src/Deposits/Movement.antt =====
-- A deposit as a change of the books.
use miniwallet.Base.{
  ◌≡◌, inl, inr, refl, true, ◌∙◌, Option, none, some, [], ◌∷◌, map, ◌==◌, if◌then◌else◌, String,
  arith,
}
use miniwallet.Base.Int.{pos, ◌≤ℤ◌, int_laws}
use miniwallet.Errors.{Result, ok, raise}
use miniwallet.Events.{uuid, decimal, text, deposit_completed}
use miniwallet.Models.{debit, credit, Deposit}
use miniwallet.Db.{
  Db, Env, insert_deposit, insert_ledger_entry, publish_event, outbox_row, system_account_id,
  has_account,
}
use miniwallet.Ledger.{get_balance}
use miniwallet.Deposits.{
  Webhook, pending_row, rejected_row, completed_row, deposit_leg, reject, write_deposit,
  update_deposit, completed, settle, process, simulate_deposit, rejection_reason,
}
use miniwallet.Activity.Replay.{shown, shown-deposit_completed, shown-deposit_rejected}
use miniwallet.Activity.Readable.{
  same_accounts, Emits-one, IsReadable-deposit_completed, IsReadable-deposit_rejected,
}
use miniwallet.Backing.Growth.{stands_behind}
use miniwallet.Backing.Tables.{adds_deposit}
use miniwallet.Bank.{Change, keeps, posts, Change-refl}

-- What a deposit that was written has written.
record Wrote (env : Env) (w : Webhook) (db db' : Db) : Type 0 where
  positive : pos 1 ≤ℤ w.amount
  ledger :
      db'.ledger_entries
      ≡ deposit_leg env w (env.uuid4 3) debit system_account_id
        ∷ deposit_leg env w (env.uuid4 2) credit w.account_id
        ∷ db.ledger_entries
  outbox :
      db'.outbox
      ≡ outbox_row env "deposit.events" "deposit.completed"
          (deposit_completed
            (uuid (env.uuid4 0))
            (uuid w.account_id)
            (decimal w.amount)
            (text w.currency)
            (text w.source_type)
            (text "deposit")
            (text w.external_reference))
          none
          none
        ∷ db.outbox
  accounts : db'.accounts ≡ db.accounts
  known : has_account w.account_id db' ≡ true
  transfers : db'.transfers ≡ db.transfers
  deposits :
      db'.deposits
      ≡ map
          (λ (d : Deposit). if d.id == (completed_row env w).id then completed_row env w else d)
          db.deposits
  withdrawals : db'.withdrawals ≡ db.withdrawals

write_deposit-Wrote :
    (env : Env) (w : Webhook) (db : Db) {db' : Db}
    → write_deposit env w db ≡ ok db'
    → Wrote env w db db'
unfolding write_deposit insert_ledger_entry publish_event update_deposit has_account
write_deposit-Wrote env w db h = ground arith

-- The row is inserted, and nothing else is written yet.
record Flushed (env : Env) (w : Webhook) (before db : Db) : Type 0 where
  ledger : db.ledger_entries ≡ before.ledger_entries
  outbox : db.outbox ≡ before.outbox
  accounts : db.accounts ≡ before.accounts
  transfers : db.transfers ≡ before.transfers
  deposits : db.deposits ≡ pending_row env w ∷ before.deposits
  withdrawals : db.withdrawals ≡ before.withdrawals

insert_deposit-Flushed :
    (env : Env) (w : Webhook) (before : Db) {db : Db}
    → insert_deposit (pending_row env w) before ≡ ok db
    → Flushed env w before db
unfolding insert_deposit
insert_deposit-Flushed env w before h = ground arith

module _ (env : Env) (w : Webhook) (before db : Db) (f : Flushed env w before db) where
  completed-Change :
      (x : Result Db) → write_deposit env w db ≡ x → Change before (completed env w before x).1
  unfolding completed get_balance shown
  completed-Change (raise e) h = Change-refl before
  completed-Change (ok db') h =
      let d = write_deposit-Wrote env w db h in
      posts system_account_id w.account_id w.amount d.positive (inl refl)
        (λ a. rw (d.ledger, f.ledger) (grind int_laws))
        (λ a user.
          rw
            (
              d.outbox,
              f.outbox,
              shown-deposit_completed env "deposit.events" none none before.outbox a (env.uuid4 0)
                  w.account_id w.amount w.currency w.source_type "deposit" w.external_reference,
            )
            (ground (arith, user)))
        (Emits-one _ (rw (d.outbox, f.outbox) refl) refl (same_accounts (d.accounts ∙ f.accounts)) (
          IsReadable-deposit_completed env none none _ (env.uuid4 0) w.account_id w.amount
            w.currency w.source_type "deposit" w.external_reference d.known))
        (λ b.
          adds_deposit b (pending_row env w) (completed_row env w)
            (deposit_leg env w (env.uuid4 3) debit system_account_id
              ∷ deposit_leg env w (env.uuid4 2) credit w.account_id
              ∷ [])
            (rw (d.ledger, f.ledger) refl) (d.transfers ∙ f.transfers)
            (rw (d.deposits, f.deposits) refl) (d.withdrawals ∙ f.withdrawals) tt
            (
              stands_behind (deposit_leg env w (env.uuid4 3) debit system_account_id) (inl refl)
                  refl,
              stands_behind (deposit_leg env w (env.uuid4 2) credit w.account_id) (inr (inl refl))
                  refl,
            ))

  settle-Change : (o : Option String) → Change before (settle env w before db o).1
  unfolding settle reject publish_event update_deposit get_balance shown
  settle-Change none = completed-Change _ refl
  settle-Change (some reason) =
      keeps (λ a. rw f.ledger refl)
        (λ a _.
          rw f.outbox
            (shown-deposit_rejected env "deposit.events" none none before.outbox a _ _ _ _ _ _))
        (Emits-one _ (rw f.outbox refl) refl (same_accounts f.accounts) (
          IsReadable-deposit_rejected env none none _ (uuid (env.uuid4 0)) (uuid w.account_id)
            (decimal w.amount) (text w.currency) (text "deposit") (text reason)))
        (λ b.
          adds_deposit b (pending_row env w) (rejected_row env w reason) [] f.ledger f.transfers
            (rw f.deposits refl) f.withdrawals tt tt)

process-Change :
    (env : Env) (w : Webhook) (db : Db) (x : Result Db)
    → insert_deposit (pending_row env w) db ≡ x
    → Change db (process env w db x).1
unfolding process insert_deposit
process-Change env w db (raise e) h = Change-refl db
process-Change env w db (ok db') h =
    settle-Change env w db db' (insert_deposit-Flushed env w db h) (rejection_reason w db')

pub simulate_deposit-Change :
    (env : Env) (w : Webhook) (db : Db) → Change db (simulate_deposit env w db).1
unfolding simulate_deposit
simulate_deposit-Change env w db = process-Change env w db _ refl
