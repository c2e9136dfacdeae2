-- ===== src/Accounts/Laws.antt =====
-- What opening an account and a seed do to the tables and to the balances.
use miniwallet.Base.{ℕ, ◌≡◌, ◌⊎◌, inl, inr, refl, none, some, List, ◌∷◌, String, str_eq_refl, arith}
use miniwallet.Base.Int.{ℤ, pos, ◌≤ℤ◌}
use miniwallet.Errors.{ok, raise, account_already_exists}
use miniwallet.Models.{debit, credit, Account, LedgerEntry}
use miniwallet.Db.{
  Db, Env, has_account, insert_account, insert_ledger_entry, publish_event, system_account_id,
}
use miniwallet.Ledger.Sums.{IsSound, IsSound-credit_debit}
use miniwallet.Accounts.{
  SeedResponse, open_account, seed, seed_leg, write_seed, find_account, find_entry_by_key,
}

-- A user has at most one account: after an account was opened for a user, opening another for the
-- same user is refused and changes nothing.
pub open_account_twice :
    (env env' : Env) (u : ℕ) (db : Db) {a : Account}
    → (open_account env u db).0 ≡ ok a
    → let db' = (open_account env u db).1 in
      open_account env' u db' ≡ (raise account_already_exists, db')
unfolding open_account insert_account publish_event
open_account_twice env env' u db h = ground arith

-- A seed that wrote: two legs, the debit on the system's account.
pub record Seeded (env : Env) (i : ℕ) (x : ℤ) (k : String) (l l' : List LedgerEntry) : Type 0 where
  pub positive : pos 1 ≤ℤ x
  pub legs :
      l'
      ≡ seed_leg env (env.uuid4 2) credit i x (some k)
        ∷ seed_leg env (env.uuid4 1) debit system_account_id x none
        ∷ l

pub seed-ledger :
    (env : Env) (i : ℕ) (x : ℤ) (k : String) (u : ℕ) (db : Db)
    → let l' = (seed env i x k u db).1.ledger_entries in
      (l' ≡ db.ledger_entries) ⊎ Seeded env i x k db.ledger_entries l'
unfolding seed write_seed insert_ledger_entry publish_event
seed-ledger env i x k u db = ground arith

-- A seed keeps the books balanced and overdraws no account but the system's, errors included.
pub seed-IsSound :
    (env : Env) (i : ℕ) (x : ℤ) (k : String) (u : ℕ) (db : Db)
    → IsSound db.ledger_entries
    → IsSound (seed env i x k u db).1.ledger_entries
seed-IsSound env i x k u db h = elim (seed-ledger env i x k u db) [
  | inl same ↦ rw same h
  | inr m ↦ rw m.legs (
      IsSound-credit_debit (seed_leg env (env.uuid4 1) debit system_account_id x none)
        (seed_leg env (env.uuid4 2) credit i x (some k)) db.ledger_entries
        (record {
          debits = refl;
          credits = refl;
          same_amount = refl;
          positive = ground (arith, m.positive);
          funded = inl refl;
        })
        h)
]

-- A seed is paid once for its key: repeating it returns the entry of the first call and changes
-- nothing.
seed_exactly_once :
    (env env' : Env) (i : ℕ) (x : ℤ) (k : String) (u : ℕ) (db : Db) {r : SeedResponse}
    → (seed env i x k u db).0 ≡ ok r
    → let db' = (seed env i x k u db).1 in seed env' i x k u db' ≡ (ok r, db')
unfolding seed write_seed insert_ledger_entry publish_event has_account find_account
    find_entry_by_key
seed_exactly_once env env' i x k u db h = ground (arith, str_eq_refl k)
