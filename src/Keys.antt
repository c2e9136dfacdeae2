-- ===== src/Keys.antt =====
-- Idempotency keys: the tables transfers and withdrawals have one row for a key, which is the one that
-- the look-up of a replay finds.
pub mod Replays
pub mod Rows
use miniwallet.Base.{
  ℕ, ◌≡◌, ◌⊎◌, inl, inr, refl, sym, ◌∙◌, String, Bool, true, false, Option, none, some, List, [],
  ◌∷◌, map, find?, str_eq, str_eq_refl, str_eq_iff, ◌==◌, if◌then◌else◌, if_intro, arith, IsOneOf,
  Bool-cases,
}
use miniwallet.Base.Int.{ℤ}
use miniwallet.Errors.{Result, ok, raise}
use miniwallet.Models.{User, Transfer, TransferStatus, Withdrawal}
use miniwallet.Db.{
  Db, Env, insert_user, insert_account, insert_ledger_entry, insert_transfer, insert_deposit,
  insert_withdrawal, find_transfer_by_key, find_withdrawal_by_key, publish_event,
}
use miniwallet.Schemas.{HashInput, Session}
use miniwallet.Accounts.{open_account, opened, account_row, seed, write_seed}
use miniwallet.Transfers.{
  Request as TransferRequest, transfer, transfer_row, attempt, write_completed, write_failed,
}
use miniwallet.Deposits.{Webhook, simulate_deposit, write_deposit, reject, update_deposit}
use miniwallet.Withdrawals.{
  Request, reserved, initial_row, reserve, write_initiated, update_withdrawal, submit, complete,
  compensate, set_submitted, set_completed, set_failed,
}

module _ {A : Type 0} (key : A → String) where
  -- No two rows have one key.
  abbrev pub HaveOwnKeys : List A → Type 0
  HaveOwnKeys [] = Unit
  HaveOwnKeys (r ∷ l) = (find? (λ (x : A). str_eq (key x) (key r)) l ≡ none) × HaveOwnKeys l

  find_none :
      (k : String) (r : A) (l : List A)
      → find? (λ (x : A). str_eq (key x) k) l ≡ none
      → IsOneOf r l
      → str_eq (key r) k ≡ false
  find_none k r [] h mem = absurd mem
  find_none k r (x ∷ l) h (inl e) = elim (Bool-cases (str_eq (key x) k)) [
    | inl found ↦ absurd (ground (arith, rw found at h))
    | inr other ↦ rw e other
  ]
  find_none k r (x ∷ l) h (inr mem) = elim (Bool-cases (str_eq (key x) k)) [
    | inl found ↦ absurd (ground (arith, rw found at h))
    | inr other ↦ find_none k r l (rw other at h) mem
  ]

  -- A row is the one that its key finds.
  pub find_own :
      (r : A) (l : List A)
      → HaveOwnKeys l
      → IsOneOf r l
      → find? (λ (x : A). str_eq (key x) (key r)) l ≡ some r
  find_own r [] h mem = absurd mem
  find_own r (x ∷ l) (new, rest) (inl e) = rw (sym e, str_eq_refl (key r)) refl
  find_own r (x ∷ l) (new, rest) (inr mem) = elim (Bool-cases (str_eq (key x) (key r))) [
    | inl p ↦
        (let same : key x ≡ key r = (str_eq_iff (key x) (key r)).0 p in
          let taken : str_eq (key r) (key x) ≡ true = rw same (str_eq_refl (key r)) in
          let other = find_none (key x) r l new mem in ground (arith, other, taken))
    | inr p ↦ rw p (find_own r l rest mem)
  ]

  map-find_none :
      (f : A → A) (k : String) (l : List A)
      → ((x : A) → key (f x) ≡ key x)
      → find? (λ (x : A). str_eq (key x) k) l ≡ none
      → find? (λ (x : A). str_eq (key x) k) (map f l) ≡ none
  map-find_none f k [] same h = refl
  map-find_none f k (x ∷ l) same h = elim (Bool-cases (str_eq (key x) k)) [
    | inl found ↦ absurd (ground (arith, rw found at h))
    | inr other ↦ rw (same x, other) (map-find_none f k l same (rw other at h))
  ]

  -- An UPDATE that leaves the keys as they are.
  pub map-HaveOwnKeys :
      (f : A → A) (l : List A)
      → ((x : A) → key (f x) ≡ key x)
      → HaveOwnKeys l
      → HaveOwnKeys (map f l)
  map-HaveOwnKeys f [] same h = tt
  map-HaveOwnKeys f (x ∷ l) same (new, rest) =
      (rw (same x) (map-find_none f (key x) l same new), map-HaveOwnKeys f l same rest)

abbrev pub transfer_key : Transfer → String
transfer_key t = t.idempotency_key

abbrev pub withdrawal_key : Withdrawal → String
withdrawal_key w = w.idempotency_key

pub record OwnKeys (db : Db) : Type 0 where
  pub transfers : HaveOwnKeys transfer_key db.transfers
  pub withdrawals : HaveOwnKeys withdrawal_key db.withdrawals

-- The two tables are as they were.
pub record SameRows (db db' : Db) : Type 0 where
  pub transfers : db'.transfers ≡ db.transfers
  pub withdrawals : db'.withdrawals ≡ db.withdrawals

pub SameRows-OwnKeys : {db db' : Db} → SameRows db db' → OwnKeys db → OwnKeys db'
SameRows-OwnKeys s h = record {
  transfers = rw s.transfers h.transfers;
  withdrawals = rw s.withdrawals h.withdrawals;
}

pub registers-SameRows :
    (u : User) (db : Db) {db' : Db} → insert_user u db ≡ ok db' → SameRows db db'
unfolding insert_user
registers-SameRows u db h = ground arith

pub open_account-SameRows : (env : Env) (i : ℕ) (db : Db) → SameRows db (open_account env i db).1
unfolding open_account insert_account publish_event
open_account-SameRows env i db = ground arith

pub seed-SameRows :
    (env : Env) (i : ℕ) (x : ℤ) (k : String) (u : ℕ) (db : Db) → SameRows db (seed env i x k u db).1
unfolding seed write_seed insert_ledger_entry publish_event
seed-SameRows env i x k u db = ground arith

pub simulate_deposit-SameRows :
    (env : Env) (w : Webhook) (db : Db) → SameRows db (simulate_deposit env w db).1
unfolding simulate_deposit insert_deposit reject write_deposit insert_ledger_entry publish_event
    update_deposit
simulate_deposit-SameRows env w db = ground arith
