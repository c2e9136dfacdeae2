-- ===== src/Tests/Data.antt =====
-- The inputs of the tests: three accounts, of which the second has funds, and what calls draw.
use miniwallet.Base.{ℕ, ◌+◌, ◌*◌, refl, none, some, [], ◌∷◌, String, arith, if◌then◌else◌}
use miniwallet.Base.Int.{ℤ, pos, ltb_ℤ, ◌+ℤ◌, ◌-ℤ◌}
use miniwallet.Models.{User, Account, LedgerEntry, debit, credit}
use miniwallet.Db.{Db, Env}
use miniwallet.Ledger.Sums.{IsSound}
use miniwallet.Schemas.{HashInput, transfer_input, withdrawal_input}

abbrev pub env_at : ℕ → Env
env_at n = record { uuid4 = λ i. n * 100 + i; now = λ i. n * 1000 }

abbrev pub account : ℕ → Account
account i = record { id = i; user_id = some i; status = "active"; created_at = 0; updated_at = 0 }

-- A user that has no account.
abbrev user : ℕ → User
user i = record { id = i; email = "u"; hashed_password = ""; created_at = 0; updated_at = 0 }

abbrev entry : ℕ → ℕ → ℤ → LedgerEntry
entry id a x = record {
  id = id;
  transaction_id = 1;
  account_id = a;
  direction = credit;
  amount = x;
  currency = "USD";
  entry_type = "seed";
  reference_id = none;
  idempotency_key = none;
  created_at = 0;
}

-- The second account has 100.0000 from the system's.
abbrev pub funded_db : Db
funded_db = record {
  users = user 7 ∷ [];
  accounts = account 2 ∷ account 1 ∷ account 0 ∷ [];
  ledger_entries =
      entry 11 1 (pos 1000000) ∷ record (entry 10 0 (pos 1000000)) { direction = debit } ∷ [];
  transfers = [];
  deposits = [];
  withdrawals = [];
  outbox = [];
}

pub funded_db-IsSound : IsSound funded_db.ledger_entries
unfolding ◌+ℤ◌ ◌-ℤ◌
funded_db-IsSound = record { balanced = refl; covered = λ a h. ground (arith, h) }

-- In place of SHA-256: a function that tells the amounts up to 5.0000 from the others.
abbrev of_amount : ℤ → String
of_amount x = if ltb_ℤ (pos 50000) x then "more" else "at most five"

abbrev pub digest : HashInput → String
digest (transfer_input from_account_id to_account_id amount) = of_amount amount
digest (withdrawal_input account_id amount_text currency destination_type details) = amount_text
