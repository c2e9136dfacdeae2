-- ===== src/Ledger/Sums.antt =====
-- Double entry: what a pair of legs does to the total of the ledger and to each balance.
use miniwallet.Base.{ℕ, List, [], ◌∷◌, ◌≡◌, ◌≢◌, ◌⊎◌, ◌∙◌}
use miniwallet.Base.Int.{ℤ, pos, ◌≤ℤ◌, int_laws}
use miniwallet.Models.{debit, credit, LedgerEntry}
use miniwallet.Db.{system_account_id}
use miniwallet.Ledger.{signed, balance_of}

-- The signed sum over all accounts.
abbrev pub total : List LedgerEntry → ℤ
total [] = pos 0
total (e ∷ l) = signed e.direction e.amount (total l)

-- The books are balanced, and no account but the system's is overdrawn.
pub record IsSound (l : List LedgerEntry) : Type 0 where
  pub balanced : total l ≡ pos 0
  pub covered : (a : ℕ) → a ≢ system_account_id → pos 0 ≤ℤ balance_of a l

-- Two legs of one transaction: a debit and a credit of the same positive amount, where the debited
-- account is the system's or has the amount.
pub record IsPair (d c : LedgerEntry) (l : List LedgerEntry) : Type 0 where
  pub debits : d.direction ≡ debit
  pub credits : c.direction ≡ credit
  pub same_amount : d.amount ≡ c.amount
  pub positive : pos 0 ≤ℤ c.amount
  pub funded : (d.account_id ≡ system_account_id) ⊎ (d.amount ≤ℤ balance_of d.account_id l)

module _ (d c : LedgerEntry) (l : List LedgerEntry) (p : IsPair d c l) where
  pub total-credit_debit : total (c ∷ d ∷ l) ≡ total l
  total-credit_debit = rw (p.debits, p.credits, p.same_amount) (omega int_laws)

  pub total-debit_credit : total (d ∷ c ∷ l) ≡ total l
  total-debit_credit = rw (p.debits, p.credits, p.same_amount) (omega int_laws)

  covered-credit_debit :
      (a : ℕ) → a ≢ system_account_id → pos 0 ≤ℤ balance_of a l → pos 0 ≤ℤ balance_of a (c ∷ d ∷ l)
  covered-credit_debit a h k =
      rw (p.debits, p.credits) (grind (int_laws, p.same_amount, p.positive, p.funded))

  covered-debit_credit :
      (a : ℕ) → a ≢ system_account_id → pos 0 ≤ℤ balance_of a l → pos 0 ≤ℤ balance_of a (d ∷ c ∷ l)
  covered-debit_credit a h k =
      rw (p.debits, p.credits) (grind (int_laws, p.same_amount, p.positive, p.funded))

  -- A transaction keeps the books sound, in whichever order its legs are written.
  pub IsSound-credit_debit : IsSound l → IsSound (c ∷ d ∷ l)
  IsSound-credit_debit s = record {
    balanced = total-credit_debit ∙ s.balanced;
    covered = λ a h. covered-credit_debit a h (s.covered a h);
  }

  pub IsSound-debit_credit : IsSound l → IsSound (d ∷ c ∷ l)
  IsSound-debit_credit s = record {
    balanced = total-debit_credit ∙ s.balanced;
    covered = λ a h. covered-debit_credit a h (s.covered a h);
  }
