-- ===== src/Ledger.antt =====
-- The ledger: `get_balance` of app/services/account_service.py over the table ledger_entries.
pub mod Sums
use miniwallet.Base.{ℕ, List, [], ◌∷◌, ◌==◌, if◌then◌else◌}
use miniwallet.Base.Int.{ℤ, pos, ◌+ℤ◌, ◌-ℤ◌}
use miniwallet.Models.{Direction, debit, credit, LedgerEntry}
use miniwallet.Db.{Db}

-- CASE WHEN direction = 'credit' THEN amount WHEN direction = 'debit' THEN -amount END
abbrev pub signed : Direction → ℤ → ℤ → ℤ
signed credit x s = s +ℤ x
signed debit x s = s -ℤ x

-- COALESCE(SUM(…), 0) over the rows WHERE account_id = :id
abbrev pub balance_of : ℕ → List LedgerEntry → ℤ
balance_of a [] = pos 0
balance_of a (e ∷ l) =
    let rest = balance_of a l in
    if e.account_id == a then signed e.direction e.amount rest else rest

unfoldable pub get_balance : Db → ℕ → ℤ
get_balance db a = balance_of a db.ledger_entries
