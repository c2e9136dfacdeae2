-- ===== src/Deposits/Laws.antt =====
-- What a deposit does: which deposits are completed, that money moves once, and what is rejected.
use miniwallet.Base.{
  ◌≡◌, ◌≢◌, ◌⊎◌, inl, inr, refl, Option, none, some, List, ◌∷◌, false, String, arith, str_eq,
  IsOneOf,
}
use miniwallet.Base.Int.{pos, ◌+ℤ◌, ◌≤ℤ◌}
use miniwallet.Errors.{ok, raise, integrity_error, deposits_amount_check}
use miniwallet.Models.{debit, credit, Account, Deposit, LedgerEntry}
use miniwallet.Db.{Db, Env, insert_deposit, insert_ledger_entry, publish_event, system_account_id}
use miniwallet.Ledger.{get_balance}
use miniwallet.Ledger.Sums.{IsSound, IsSound-debit_credit}
use miniwallet.Accounts.{find_account}
use miniwallet.Deposits.{
  Webhook, deposit_to_response, completed_row, rejected_row, deposit_leg, reject, write_deposit,
  update_deposit, simulate_deposit,
}

pub record Credited (env : Env) (w : Webhook) (l l' : List LedgerEntry) : Type 0 where
  pub positive : pos 1 ≤ℤ w.amount
  pub legs :
      l'
      ≡ deposit_leg env w (env.uuid4 3) debit system_account_id
        ∷ deposit_leg env w (env.uuid4 2) credit w.account_id
        ∷ l

pub deposit-ledger :
    (env : Env) (w : Webhook) (db : Db)
    → let l' = (simulate_deposit env w db).1.ledger_entries in
      (l' ≡ db.ledger_entries) ⊎ Credited env w db.ledger_entries l'
unfolding simulate_deposit reject write_deposit insert_deposit insert_ledger_entry update_deposit
    publish_event
deposit-ledger env w db = ground arith

-- A deposit keeps the books balanced and overdraws no account but the system's, errors included.
pub deposit-IsSound :
    (env : Env) (w : Webhook) (db : Db)
    → IsSound db.ledger_entries
    → IsSound (simulate_deposit env w db).1.ledger_entries
deposit-IsSound env w db h = elim (deposit-ledger env w db) [
  | inl same ↦ rw same h
  | inr m ↦ rw m.legs (
      IsSound-debit_credit (deposit_leg env w (env.uuid4 3) debit system_account_id)
        (deposit_leg env w (env.uuid4 2) credit w.account_id) db.ledger_entries
        (record {
          debits = refl;
          credits = refl;
          same_amount = refl;
          positive = ground (arith, m.positive);
          funded = inl refl;
        })
        h)
]

abbrev pub reference : Deposit → String
reference d = d.external_reference

-- What is said of a webhook, check by check: the reason to reject it, or none.
pub data Verdict (w : Webhook) (db : Db) : Option String → Type 0 where
  for_the_system : w.account_id ≡ system_account_id → Verdict w db (some "ACCOUNT_NOT_FOUND")
  other_currency :
      w.account_id ≢ system_account_id
      → str_eq w.currency "USD" ≡ false
      → Verdict w db (some "UNSUPPORTED_CURRENCY")
  for_nobody :
      w.account_id ≢ system_account_id
      → w.currency ≡ "USD"
      → ((a : Account) → IsOneOf a db.accounts → a.id ≢ w.account_id)
      → Verdict w db (some "ACCOUNT_NOT_FOUND")
  inactive :
      (a : Account)
      → w.account_id ≢ system_account_id
      → w.currency ≡ "USD"
      → find_account w.account_id db ≡ some a
      → str_eq a.status "active" ≡ false
      → Verdict w db (some "ACCOUNT_NOT_ACTIVE")
  acceptable :
      (a : Account)
      → w.account_id ≢ system_account_id
      → w.currency ≡ "USD"
      → find_account w.account_id db ≡ some a
      → a.status ≡ "active"
      → Verdict w db none

-- What a new webhook with a positive amount does, by the reason to reject it.
abbrev pub Settles : Env → Webhook → Db → Option String → Type 0
Settles env w db none =
    let (r, db') = simulate_deposit env w db in
    (r ≡ ok (deposit_to_response (completed_row env w)))
    × (get_balance db' w.account_id ≡ get_balance db w.account_id +ℤ w.amount)
Settles env w db (some reason) =
    let (r, db') = simulate_deposit env w db in
    (r ≡ ok (deposit_to_response (rejected_row env w reason)))
    × (db'.ledger_entries ≡ db.ledger_entries)

-- The check for INVALID_AMOUNT cannot be reached: a webhook whose amount is not positive violates
-- the CHECK constraint of the table, raises IntegrityError, and records nothing.
pub deposit_invalid_amount :
    (env : Env) (w : Webhook) (db : Db)
    → w.amount ≤ℤ pos 0
    → simulate_deposit env w db ≡ (raise (integrity_error deposits_amount_check), db)
unfolding simulate_deposit insert_deposit
deposit_invalid_amount env w db h = ground arith
