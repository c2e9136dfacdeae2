-- ===== src/Withdrawals/Refund.antt =====
-- The transactions of the saga one by one: what each does to the ledger, and that a withdrawal is
-- refunded at most once.
use miniwallet.Base.{
  ℕ, ◌≡◌, ◌≢◌, inl, inr, refl, Option, none, some, List, [], ◌∷◌, ◌++◌, true, false, String, ◌==◌,
  if◌then◌else◌, str_eq_refl, ap, arith,
}
use miniwallet.Base.Int.{ℤ, pos, ◌+ℤ◌, ◌-ℤ◌, ◌≤ℤ◌, int_laws}
use miniwallet.Errors.{ok}
use miniwallet.Models.{debit, credit, LedgerEntry, Withdrawal}
use miniwallet.Db.{
  Db, Env, has_account, insert_withdrawal, insert_ledger_entry, publish_event, system_account_id,
  ledger_key_taken,
}
use miniwallet.Ledger.{get_balance, balance_of}
use miniwallet.Ledger.Sums.{IsSound, IsSound-credit_debit, IsSound-debit_credit}
use miniwallet.Withdrawals.{
  Request, reserved, leg, initial_row, write_initiated, reserve, update_withdrawal, compensate,
  reversal_key, reversal_debit, reversal_credit,
}

-- What TX 1 found and wrote where it reserved the funds.
pub record Reserved (env : Env) (r : Request) (db : Db) (w : Withdrawal) (db' : Db) : Type 0 where
  pub row : w ≡ initial_row env r
  pub positive : pos 1 ≤ℤ r.amount
  pub user : r.account_id ≢ system_account_id
  pub funded : r.amount ≤ℤ balance_of r.account_id db.ledger_entries
  pub ledger :
      db'.ledger_entries
      ≡ leg env (env.uuid4 3) (env.uuid4 1) (initial_row env r) debit r.account_id "withdrawal" none
        ∷ leg env
            (env.uuid4 2)
            (env.uuid4 1)
            (initial_row env r)
            credit
            system_account_id
            "withdrawal"
            none
        ∷ db.ledger_entries
  pub withdrawals : db'.withdrawals ≡ initial_row env r ∷ db.withdrawals
  pub accounts : db'.accounts ≡ db.accounts

pub reserve-Reserved :
    (env : Env) (r : Request) (db : Db) {w : Withdrawal} {db' : Db}
    → reserve env r db ≡ reserved w db'
    → Reserved env r db w db'
unfolding reserve write_initiated insert_withdrawal insert_ledger_entry publish_event has_account
    get_balance
reserve-Reserved env r db h = ground arith

pub reserve-IsSound :
    (env : Env) (r : Request) (db : Db) {w : Withdrawal} {db' : Db}
    → reserve env r db ≡ reserved w db'
    → IsSound db.ledger_entries
    → IsSound db'.ledger_entries
reserve-IsSound env r db h s =
    let f = reserve-Reserved env r db h in
    rw f.ledger (
      IsSound-debit_credit
        (leg env (env.uuid4 3) (env.uuid4 1) (initial_row env r) debit r.account_id "withdrawal"
          none)
        (leg env (env.uuid4 2) (env.uuid4 1) (initial_row env r) credit system_account_id
          "withdrawal" none)
        db.ledger_entries
        (record {
          debits = refl;
          credits = refl;
          same_amount = refl;
          positive = ground (arith, f.positive);
          funded = inr f.funded;
        })
        s)

-- What TX 3b found and wrote.
pub record Refunded (env : Env) (w : Withdrawal) (db db' : Db) : Type 0 where
  pub positive : pos 1 ≤ℤ w.amount
  pub first : ledger_key_taken (some (reversal_key w.id)) db.ledger_entries ≡ false
  pub ledger : db'.ledger_entries ≡ reversal_credit env w ∷ reversal_debit env w ∷ db.ledger_entries

pub compensate-Refunded :
    (env : Env) (w : Withdrawal) (code : String) (actor : Option ℕ) (db : Db) {db' : Db}
    → compensate env w code actor db ≡ ok db'
    → Refunded env w db db'
unfolding compensate insert_ledger_entry publish_event update_withdrawal has_account
compensate-Refunded env w code actor db h = ground arith

-- A compensation keeps the books balanced and overdraws no account but the system's.
pub compensate-IsSound :
    (env : Env) (w : Withdrawal) (code : String) (actor : Option ℕ) (db : Db) {db' : Db}
    → compensate env w code actor db ≡ ok db'
    → IsSound db.ledger_entries
    → IsSound db'.ledger_entries
compensate-IsSound env w code actor db h s =
    let f = compensate-Refunded env w code actor db h in
    rw f.ledger (
      IsSound-credit_debit (reversal_debit env w) (reversal_credit env w) db.ledger_entries
        (record {
          debits = refl;
          credits = refl;
          same_amount = refl;
          positive = ground (arith, f.positive);
          funded = inl refl;
        })
        s)

-- An append-only ledger never forgets a key.
key_taken-append :
    (k : String) (m l : List LedgerEntry)
    → ledger_key_taken (some k) l ≡ true
    → ledger_key_taken (some k) (m ++ l) ≡ true
key_taken-append k [] l h = h
key_taken-append k (e ∷ m) l h = ground (arith, key_taken-append k m l h)

refund-key_taken :
    (env : Env) (w : Withdrawal) (db db' : Db)
    → Refunded env w db db'
    → ledger_key_taken (some (reversal_key w.id)) db'.ledger_entries ≡ true
refund-key_taken env w db db' f = rw f.ledger (ground (arith, str_eq_refl (reversal_key w.id)))

-- After a compensation has committed, none of a withdrawal with the same id commits on a database
-- whose ledger has only grown since.
pub no_second_compensation :
    (env env' : Env) (w w' : Withdrawal) (code code' : String) (actor actor' : Option ℕ)
    (db later : Db) (m : List LedgerEntry) {db' db'' : Db}
    → compensate env w code actor db ≡ ok db'
    → later.ledger_entries ≡ m ++ db'.ledger_entries
    → w'.id ≡ w.id
    → compensate env' w' code' actor' later ≢ ok db''
no_second_compensation env env' w w' code code' actor actor' db later m {db'} h grown same again =
    let taken =
      key_taken-append (reversal_key w.id) m db'.ledger_entries
        (refund-key_taken env w db db' (compensate-Refunded env w code actor db h)) in
    let first = (compensate-Refunded env' w' code' actor' later again).first in
    cc (taken, first, grown, ap reversal_key same)

-- The balances that a reservation leaves: the account has the amount less, the system's more.
abbrev pub debited : ℕ → ℤ → Db → ℕ → ℤ
debited account x db a =
    if a == account
    then get_balance db a -ℤ x
    else if a == system_account_id
    then get_balance db a +ℤ x
    else get_balance db a

pub reserve-balance :
    (env : Env) (r : Request) (db : Db) {w : Withdrawal} {db' : Db}
    → reserve env r db ≡ reserved w db'
    → (a : ℕ) → get_balance db' a ≡ debited r.account_id r.amount db a
unfolding get_balance
reserve-balance env r db h a =
    let f = reserve-Reserved env r db h in rw f.ledger (ground (arith, f.user))

-- TX 3b gives back exactly what TX 1 took: if the ledger is in between as TX 1 left it, and the row
-- has the account and the amount of the request, every balance is as it was before.
pub compensate-reserve :
    (env env' : Env) (r : Request) (db : Db) (w' : Withdrawal) (code : String) (actor : Option ℕ)
    (mid : Db) {w : Withdrawal} {db' db'' : Db}
    → reserve env r db ≡ reserved w db'
    → mid.ledger_entries ≡ db'.ledger_entries
    → w'.account_id ≡ r.account_id
    → w'.amount ≡ r.amount
    → compensate env' w' code actor mid ≡ ok db''
    → (a : ℕ) → get_balance db'' a ≡ get_balance db a
unfolding get_balance
compensate-reserve env env' r db w' code actor mid h same acct amt again a =
    let f = reserve-Reserved env r db h in
    let g = compensate-Refunded env' w' code actor mid again in
    rw (g.ledger, same, f.ledger) (grind (int_laws, f.user, acct, amt))
