-- ===== src/Backing/Growth.antt =====
-- The entries behind a row stay, whatever else is posted.
use miniwallet.Base.{
  IsOneOf, refl, ℕ, ◌≡◌, String, true, some, List, [], ◌∷◌, ◌++◌, All-imp, IsOneOf-append, arith,
}
use miniwallet.Base.Int.{ℤ}
use miniwallet.Models.{
  Direction, LedgerEntry, Transfer, TransferStatus, Deposit, DepositStatus, Withdrawal,
  WithdrawalStatus,
}
use miniwallet.Db.{ledger_key_taken}
use miniwallet.Withdrawals.{reversal_key}
use miniwallet.Backing.{
  HasLeg, TransferStands, DepositStands, RefundStands, WithdrawalStands, AreBacked,
}

-- An entry as a leg of the row that it refers to.
pub stands_behind :
    {l : List LedgerEntry} {reference : ℕ} (e : LedgerEntry)
    → IsOneOf e l
    → e.reference_id ≡ some reference
    → HasLeg l e.direction e.account_id e.amount reference
stands_behind e posted refers = record {
  entry = e;
  posted = posted;
  direction = refl;
  account_id = refl;
  amount = refl;
  reference_id = refers;
}

-- Entries stay when others are posted.
HasLeg-grows :
    (new l : List LedgerEntry) {d : Direction} {account : ℕ} {x : ℤ} {reference : ℕ}
    → HasLeg l d account x reference
    → HasLeg (new ++ l) d account x reference
HasLeg-grows new l h = record {
  entry = h.entry;
  posted = IsOneOf-append h.entry new l h.posted;
  direction = h.direction;
  account_id = h.account_id;
  amount = h.amount;
  reference_id = h.reference_id;
}

key_taken-grows :
    (k : String) (new l : List LedgerEntry)
    → ledger_key_taken (some k) l ≡ true
    → ledger_key_taken (some k) (new ++ l) ≡ true
key_taken-grows k [] l h = h
key_taken-grows k (e ∷ new) l h = ground (arith, key_taken-grows k new l h)

TransferStands-grows :
    (new l : List LedgerEntry) (t : Transfer) (st : TransferStatus)
    → TransferStands l t st
    → TransferStands (new ++ l) t st
TransferStands-grows new l t TransferStatus.completed (d, c) =
    (HasLeg-grows new l d, HasLeg-grows new l c)
TransferStands-grows new l t TransferStatus.failed h = tt

DepositStands-grows :
    (new l : List LedgerEntry) (d : Deposit) (st : DepositStatus)
    → DepositStands l d st
    → DepositStands (new ++ l) d st
DepositStands-grows new l d DepositStatus.completed (b, c) =
    (HasLeg-grows new l b, HasLeg-grows new l c)
DepositStands-grows new l d DepositStatus.pending h = tt
DepositStands-grows new l d DepositStatus.rejected h = tt

RefundStands-grows :
    (new l : List LedgerEntry) (w : Withdrawal) (st : WithdrawalStatus)
    → RefundStands l w st
    → RefundStands (new ++ l) w st
RefundStands-grows new l w WithdrawalStatus.failed h = key_taken-grows (reversal_key w.id) new l h
RefundStands-grows new l w WithdrawalStatus.pending h = tt
RefundStands-grows new l w WithdrawalStatus.submitted h = tt
RefundStands-grows new l w WithdrawalStatus.completed h = tt

WithdrawalStands-grows :
    (new l : List LedgerEntry) (w : Withdrawal)
    → WithdrawalStands l w
    → WithdrawalStands (new ++ l) w
WithdrawalStands-grows new l w h = record {
  taken = HasLeg-grows new l h.taken;
  received = HasLeg-grows new l h.received;
  refunded = RefundStands-grows new l w w.status h.refunded;
}

-- A transaction that posts entries and leaves the three tables as they are.
pub AreBacked-grows :
    (new : List LedgerEntry) {l : List LedgerEntry} {ts : List Transfer} {ds : List Deposit}
    {ws : List Withdrawal}
    → AreBacked l ts ds ws
    → AreBacked (new ++ l) ts ds ws
AreBacked-grows new {l} {ts} {ds} {ws} h = record {
  transfers =
      All-imp (λ (t : Transfer). TransferStands l t t.status)
        (λ (t : Transfer). TransferStands (new ++ l) t t.status) ts
        (λ t k. TransferStands-grows new l t t.status k) h.transfers;
  deposits =
      All-imp (λ (d : Deposit). DepositStands l d d.status)
        (λ (d : Deposit). DepositStands (new ++ l) d d.status) ds
        (λ d k. DepositStands-grows new l d d.status k) h.deposits;
  withdrawals =
      All-imp (WithdrawalStands l) (WithdrawalStands (new ++ l)) ws (WithdrawalStands-grows new l)
        h.withdrawals;
}
