-- ===== src/Transfers/Effects.antt =====
-- What a call of `transfer` writes: the two legs of the money that moves, or no leg at all.
use miniwallet.Base.{
  ◌≡◌, ◌≢◌, ◌⊎◌, inl, inr, refl, none, List, ◌∷◌, Bool, false, String, not, if◌then◌else◌, if_intro,
  arith,
}
use miniwallet.Base.Int.{pos, ◌≤ℤ◌, ltb_ℤ}
use miniwallet.Errors.{Error, Result, ok, raise, account_not_found}
use miniwallet.Models.{debit, credit, TransferStatus, LedgerEntry}
use miniwallet.Db.{
  Db, Env, has_account, insert_transfer, insert_ledger_entry, find_transfer_by_key, publish_event,
}
use miniwallet.Ledger.{get_balance, balance_of}
use miniwallet.Ledger.Sums.{IsSound, IsSound-credit_debit}
use miniwallet.Schemas.{HashInput, Session}
use miniwallet.Transfers.{
  Request, Outcome, done, stopped, violated, leg, transfer_row, lock_order, lock_accounts,
  write_failed, write_completed, attempt, transfer, refused, committed,
}

-- What a committed transfer found and wrote.
pub record Wrote (env : Env) (r : Request) (db db' : Db) : Type 0 where
  pub positive : pos 1 ≤ℤ r.amount
  pub different : r.from_account_id ≢ r.to_account_id
  pub new_key : find_transfer_by_key r.idempotency_key db ≡ none
  pub ledger :
      db'.ledger_entries
      ≡ leg env r (env.uuid4 3) credit r.to_account_id
        ∷ leg env r (env.uuid4 2) debit r.from_account_id
        ∷ db.ledger_entries
  pub transfers : db'.transfers ≡ transfer_row env r TransferStatus.completed none ∷ db.transfers
  pub accounts : db'.accounts ≡ db.accounts

pub write_completed-Wrote :
    (env : Env) (r : Request) (db : Db) {db' : Db}
    → write_completed env r db ≡ ok db'
    → Wrote env r db db'
unfolding write_completed insert_transfer insert_ledger_entry publish_event has_account
write_completed-Wrote env r db h = ground arith

pub write_failed-ledger :
    (env : Env) (r : Request) (db : Db) {db' : Db}
    → write_failed env r db ≡ ok db'
    → db'.ledger_entries ≡ db.ledger_entries
unfolding write_failed insert_transfer publish_event
write_failed-ledger env r db h = ground arith

-- What the `try` block has done, by how it ends.
abbrev Effect : Env → Request → Db → Outcome → Type 0
Effect env r db (done t db') =
    (t ≡ transfer_row env r TransferStatus.completed none)
    × (r.amount ≤ℤ get_balance db r.from_account_id)
    × Wrote env r db db'
Effect env r db (stopped e db') = db'.ledger_entries ≡ db.ledger_entries
Effect env r db (violated e) = Unit

refused-Effect :
    (env : Env) (r : Request) (db : Db) (x : Result Db)
    → ((db' : Db) → x ≡ ok db' → db'.ledger_entries ≡ db.ledger_entries)
    → Effect env r db (refused x)
refused-Effect env r db (ok db') h = h db' refl
refused-Effect env r db (raise e) h = tt

committed-Effect :
    (env : Env) (r : Request) (db : Db) (x : Result Db)
    → ltb_ℤ (get_balance db r.from_account_id) r.amount ≡ false
    → ((db' : Db) → x ≡ ok db' → Wrote env r db db')
    → Effect env r db (committed env r x)
committed-Effect env r db (ok db') le h = (refl, ground arith, h db' refl)
committed-Effect env r db (raise e) le h = tt

pub attempt-Effect : (env : Env) (r : Request) (db : Db) → Effect env r db (attempt env r db)
unfolding attempt
attempt-Effect env r db =
    if_intro (Effect env r db)
      (not (lock_accounts (lock_order r.from_account_id r.to_account_id) db))
      (stopped account_not_found db)
      (if short
        then refused (write_failed env r db)
        else committed env r (write_completed env r db))
      (λ _. refl)
      λ _.
        if_intro (Effect env r db) short (refused (write_failed env r db))
          (committed env r (write_completed env r db))
          (λ _. refused-Effect env r db _ (λ db' h. write_failed-ledger env r db h))
          (λ le. committed-Effect env r db _ le (λ db' h. write_completed-Wrote env r db h))
  where
    short : Bool
    short = ltb_ℤ (get_balance db r.from_account_id) r.amount

-- A call that moved money: the two legs are in the ledger, and the sender had the amount.
pub record Moved (env : Env) (r : Request) (l l' : List LedgerEntry) : Type 0 where
  pub positive : pos 1 ≤ℤ r.amount
  pub different : r.from_account_id ≢ r.to_account_id
  pub funded : r.amount ≤ℤ balance_of r.from_account_id l
  pub legs :
      l'
      ≡ leg env r (env.uuid4 3) credit r.to_account_id
        ∷ leg env r (env.uuid4 2) debit r.from_account_id
        ∷ l

-- Every call leaves the ledger as it was, or has moved the amount once.
pub transfer-ledger :
    (sha256 : HashInput → String) (env : Env) (r : Request) (s : Session)
    → let l' = (transfer sha256 env r s).1.db.ledger_entries in
      (l' ≡ s.db.ledger_entries) ⊎ Moved env r s.db.ledger_entries l'
unfolding transfer get_balance
transfer-ledger sha256 env r s = ground (arith, attempt-Effect env r s.db)

-- A call of `transfer` that raises has moved no money: the ledger is as it was.
pub transfer-error_ledger :
    (sha256 : HashInput → String) (env : Env) (r : Request) (s : Session) {e : Error}
    → (transfer sha256 env r s).0 ≡ raise e
    → (transfer sha256 env r s).1.db.ledger_entries ≡ s.db.ledger_entries
unfolding transfer
transfer-error_ledger sha256 env r s h = ground (arith, attempt-Effect env r s.db)

-- The ledger that a call of `transfer` leaves is sound if the one that it found was: the books still
-- balance, and no account but the system's is overdrawn. This holds on every path, errors included.
pub transfer-IsSound :
    (sha256 : HashInput → String) (env : Env) (r : Request) (s : Session)
    → IsSound s.db.ledger_entries
    → IsSound (transfer sha256 env r s).1.db.ledger_entries
transfer-IsSound sha256 env r s h = elim (transfer-ledger sha256 env r s) [
  | inl same ↦ rw same h
  | inr m ↦ rw m.legs (
      IsSound-credit_debit (leg env r (env.uuid4 2) debit r.from_account_id)
        (leg env r (env.uuid4 3) credit r.to_account_id) s.db.ledger_entries
        (record {
          debits = refl;
          credits = refl;
          same_amount = refl;
          positive = ground (arith, m.positive);
          funded = inr m.funded;
        })
        h)
]
