-- ===== src/Backing.antt =====
-- Which entries of the ledger stand behind the rows of the tables transfers, deposits and withdrawals.
pub mod Growth
pub mod Tables
use miniwallet.Base.{
  ℕ, ◌≡◌, refl, String, Bool, true, Option, none, some, List, [], ◌∷◌, ◌++◌, map, any, All, All-imp,
  All-map, IsOneOf, IsOneOf-append, inl, inr, arith, ◌==◌, if◌then◌else◌, if_intro,
}
use miniwallet.Base.Int.{ℤ}
use miniwallet.Models.{
  Direction, debit, credit, LedgerEntry, Transfer, TransferStatus, Deposit, DepositStatus,
  Withdrawal, WithdrawalStatus,
}
use miniwallet.Db.{Db, system_account_id, ledger_key_taken, same_key}
use miniwallet.Withdrawals.{reversal_key}

-- An entry of the account, with the amount, that refers to the row.
pub record HasLeg (l : List LedgerEntry) (d : Direction) (account : ℕ) (x : ℤ) (reference : ℕ)
    : Type 0 where
  pub entry : LedgerEntry
  pub posted : IsOneOf entry l
  pub direction : entry.direction ≡ d
  pub account_id : entry.account_id ≡ account
  pub amount : entry.amount ≡ x
  pub reference_id : entry.reference_id ≡ some reference

-- A completed transfer has both its legs.
abbrev pub TransferStands : List LedgerEntry → Transfer → TransferStatus → Type 0
TransferStands l t TransferStatus.completed =
    HasLeg l debit t.from_account_id t.amount t.id × HasLeg l credit t.to_account_id t.amount t.id
TransferStands l t TransferStatus.failed = Unit

-- So has a completed deposit, from the system's account.
abbrev pub DepositStands : List LedgerEntry → Deposit → DepositStatus → Type 0
DepositStands l d DepositStatus.completed =
    HasLeg l debit system_account_id d.amount d.id × HasLeg l credit d.account_id d.amount d.id
DepositStands l d _ = Unit

-- A failed withdrawal has been given back.
abbrev pub RefundStands : List LedgerEntry → Withdrawal → WithdrawalStatus → Type 0
RefundStands l w WithdrawalStatus.failed = ledger_key_taken (some (reversal_key w.id)) l ≡ true
RefundStands l w _ = Unit

-- Every withdrawal has taken its amount.
pub record WithdrawalStands (l : List LedgerEntry) (w : Withdrawal) : Type 0 where
  pub taken : HasLeg l debit w.account_id w.amount w.id
  pub received : HasLeg l credit system_account_id w.amount w.id
  pub refunded : RefundStands l w w.status

pub record AreBacked (l : List LedgerEntry) (ts : List Transfer) (ds : List Deposit)
    (ws : List Withdrawal) : Type 0 where
  pub transfers : All (λ (t : Transfer). TransferStands l t t.status) ts
  pub deposits : All (λ (d : Deposit). DepositStands l d d.status) ds
  pub withdrawals : All (WithdrawalStands l) ws

pub record IsBacked (db : Db) : Type 0 where
  pub rows : AreBacked db.ledger_entries db.transfers db.deposits db.withdrawals
