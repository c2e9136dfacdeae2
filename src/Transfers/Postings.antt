-- ===== src/Transfers/Postings.antt =====
-- What a call of `transfer` commits, as changes of the books.
use miniwallet.Base.{◌≡◌, inl, inr, refl, true, none, some, [], ◌∷◌, arith}
use miniwallet.Base.Int.{◌≤ℤ◌}
use miniwallet.Errors.{ok}
use miniwallet.Events.{uuid, decimal, text, transfer_completed, transfer_failed}
use miniwallet.Models.{debit, credit, TransferStatus}
use miniwallet.Db.{
  Db, Env, insert_transfer, insert_ledger_entry, publish_event, outbox_row, has_account,
}
use miniwallet.Ledger.{get_balance}
use miniwallet.Transfers.{Request, transfer_row, leg, write_failed, write_completed}
use miniwallet.Transfers.Effects.{write_completed-Wrote, write_failed-ledger}
use miniwallet.Activity.Replay.{shown, shown-transfer_completed, shown-transfer_failed}
use miniwallet.Activity.Readable.{
  same_accounts, Emits-one, IsReadable-transfer_completed, IsReadable-transfer_failed,
}
use miniwallet.Backing.Growth.{stands_behind}
use miniwallet.Backing.Tables.{adds_transfer}
use miniwallet.Bank.{Change, keeps, posts}

write_completed-outbox :
    (env : Env) (r : Request) (db : Db) {db' : Db}
    → write_completed env r db ≡ ok db'
    → db'.outbox
      ≡ outbox_row env "transfer.events" "transfer.completed"
          (transfer_completed
            (uuid (env.uuid4 0))
            (uuid r.from_account_id)
            (uuid r.to_account_id)
            (decimal r.amount)
            (text "USD")
            (text "transfer")
            (text r.idempotency_key))
          r.actor_user_id
          none
        ∷ db.outbox
unfolding write_completed insert_transfer insert_ledger_entry publish_event
write_completed-outbox env r db h = ground arith

-- The accounts that the foreign keys have found.
write_completed-known :
    (env : Env) (r : Request) (db : Db) {db' : Db}
    → write_completed env r db ≡ ok db'
    → (has_account r.from_account_id db' ≡ true) × (has_account r.to_account_id db' ≡ true)
unfolding write_completed insert_transfer insert_ledger_entry publish_event has_account
write_completed-known env r db h = ground arith

write_completed-tables :
    (env : Env) (r : Request) (db : Db) {db' : Db}
    → write_completed env r db ≡ ok db'
    → (db'.deposits ≡ db.deposits) × (db'.withdrawals ≡ db.withdrawals)
unfolding write_completed insert_transfer insert_ledger_entry publish_event
write_completed-tables env r db h = ground arith

pub write_completed-Change :
    (env : Env) (r : Request) (db : Db) {db' : Db}
    → r.amount ≤ℤ get_balance db r.from_account_id
    → write_completed env r db ≡ ok db'
    → Change db db'
unfolding get_balance shown
write_completed-Change env r db funds h =
    let w = write_completed-Wrote env r db h in
    posts r.from_account_id r.to_account_id r.amount w.positive (inr funds)
      (λ a. rw w.ledger (ground (arith, w.different)))
      (λ a _. rw (write_completed-outbox env r db h) (
        shown-transfer_completed env "transfer.events" r.actor_user_id none db.outbox a _ _ _ _ _ _
          _))
      (let (hf, ht) = write_completed-known env r db h in
        Emits-one _ (write_completed-outbox env r db h) refl (same_accounts w.accounts) (
          IsReadable-transfer_completed env r.actor_user_id none _ (env.uuid4 0) r.from_account_id
            r.to_account_id r.amount "USD" "transfer" r.idempotency_key w.different hf ht))
      (λ b.
        let same = write_completed-tables env r db h in
        adds_transfer b (transfer_row env r TransferStatus.completed none)
          (leg env r (env.uuid4 3) credit r.to_account_id
            ∷ leg env r (env.uuid4 2) debit r.from_account_id
            ∷ [])
          w.ledger w.transfers same.0 same.1
          (
            stands_behind (leg env r (env.uuid4 2) debit r.from_account_id) (inr (inl refl)) refl,
            stands_behind (leg env r (env.uuid4 3) credit r.to_account_id) (inl refl) refl,
          ))

write_failed-accounts :
    (env : Env) (r : Request) (db : Db) {db' : Db}
    → write_failed env r db ≡ ok db'
    → db'.accounts ≡ db.accounts
unfolding write_failed insert_transfer publish_event
write_failed-accounts env r db h = ground arith

write_failed-outbox :
    (env : Env) (r : Request) (db : Db) {db' : Db}
    → write_failed env r db ≡ ok db'
    → db'.outbox
      ≡ outbox_row env "transfer.events" "transfer.failed"
          (transfer_failed
            (uuid (env.uuid4 0))
            (uuid r.from_account_id)
            (uuid r.to_account_id)
            (decimal r.amount)
            (text "USD")
            (text "INSUFFICIENT_BALANCE")
            (text "transfer")
            (text r.idempotency_key))
          r.actor_user_id
          none
        ∷ db.outbox
unfolding write_failed insert_transfer publish_event
write_failed-outbox env r db h = ground arith

-- The failed row, and the tables that stay.
record Refused (env : Env) (r : Request) (db db' : Db) : Type 0 where
  transfers :
      db'.transfers
      ≡ transfer_row env r TransferStatus.failed (some "INSUFFICIENT_BALANCE") ∷ db.transfers
  deposits : db'.deposits ≡ db.deposits
  withdrawals : db'.withdrawals ≡ db.withdrawals

write_failed-Refused :
    (env : Env) (r : Request) (db : Db) {db' : Db}
    → write_failed env r db ≡ ok db'
    → Refused env r db db'
unfolding write_failed insert_transfer publish_event
write_failed-Refused env r db h = ground arith

pub write_failed-Change :
    (env : Env) (r : Request) (db : Db) {db' : Db} → write_failed env r db ≡ ok db' → Change db db'
unfolding get_balance shown
write_failed-Change env r db h =
    keeps (λ a. rw (write_failed-ledger env r db h) refl)
      (λ a _. rw (write_failed-outbox env r db h) (
        shown-transfer_failed env "transfer.events" r.actor_user_id none db.outbox a _ _ _ _ _ _ _
          _))
      (Emits-one _ (write_failed-outbox env r db h) refl
        (same_accounts (write_failed-accounts env r db h))
        (IsReadable-transfer_failed env r.actor_user_id none _ _ _ _ _ _ _ _ _))
      (λ b.
        let f = write_failed-Refused env r db h in
        adds_transfer b (transfer_row env r TransferStatus.failed (some "INSUFFICIENT_BALANCE")) []
          (write_failed-ledger env r db h) f.transfers f.deposits f.withdrawals tt)
