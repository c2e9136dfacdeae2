-- ===== src/Transfers/Movement.antt =====
-- A call of `transfer` as a change of the books.
use miniwallet.Base.{◌≡◌, refl, Option, none, some, String, not, if_intro, arith}
use miniwallet.Base.Int.{◌≤ℤ◌, ltb_ℤ}
use miniwallet.Errors.{Result, ok, raise}
use miniwallet.Models.{Transfer}
use miniwallet.Db.{Db, Env}
use miniwallet.Ledger.{get_balance}
use miniwallet.Schemas.{HashInput, Session, Cached, cache_get}
use miniwallet.Transfers.{
  Request, Outcome, done, stopped, violated, lock_order, lock_accounts, write_failed,
  write_completed, attempt, transfer, refused, committed, finish, on_cached, respond,
  after_rollback, on_integrity_error, cache_key,
}
use miniwallet.Bank.{Change, Change-refl}
use miniwallet.Transfers.Postings.{write_completed-Change, write_failed-Change}

-- What the `try` block has changed, by how it ends.
abbrev Leaves : Db → Outcome → Type 0
Leaves db (done t db') = Change db db'
Leaves db (stopped e db') = Change db db'
Leaves db (violated e) = Unit

refused-Leaves :
    (env : Env) (r : Request) (db : Db) (x : Result Db)
    → write_failed env r db ≡ x
    → Leaves db (refused x)
refused-Leaves env r db (ok db') h = write_failed-Change env r db h
refused-Leaves env r db (raise e) h = tt

committed-Leaves :
    (env : Env) (r : Request) (db : Db) (x : Result Db)
    → r.amount ≤ℤ get_balance db r.from_account_id
    → write_completed env r db ≡ x
    → Leaves db (committed env r x)
committed-Leaves env r db (ok db') le h = write_completed-Change env r db le h
committed-Leaves env r db (raise e) le h = tt

attempt-Leaves : (env : Env) (r : Request) (db : Db) → Leaves db (attempt env r db)
unfolding attempt
attempt-Leaves env r db =
    if_intro (Leaves db) (not (lock_accounts (lock_order r.from_account_id r.to_account_id) db)) _ _
      (λ _. Change-refl db)
      (λ _.
        if_intro (Leaves db) (ltb_ℤ (get_balance db r.from_account_id) r.amount)
          (refused (write_failed env r db)) (committed env r (write_completed env r db))
          (λ _. refused-Leaves env r db _ refl)
          (λ le. committed-Leaves env r db _ (ground (arith, le)) refl))

after_rollback-db :
    (sha256 : HashInput → String) (r : Request) (x : Result Transfer) (s : Session)
    → (after_rollback sha256 r x s).1.db ≡ s.db
unfolding respond
after_rollback-db sha256 r (ok t) s = refl
after_rollback-db sha256 r (raise e) s = refl

finish-Change :
    (sha256 : HashInput → String) (r : Request) (o : Outcome) (s : Session)
    → Leaves s.db o
    → Change s.db (finish sha256 r o s).1.db
unfolding finish respond
finish-Change sha256 r (done t db') s h = h
finish-Change sha256 r (stopped e db') s h = h
finish-Change sha256 r (violated e) s h =
    rw (after_rollback-db sha256 r (on_integrity_error sha256 r e s.db) s) (Change-refl s.db)

on_cached-db :
    (sha256 : HashInput → String) (r : Request) (c : Cached) (s : Session)
    → (on_cached sha256 r c s).1.db ≡ s.db
unfolding on_cached
on_cached-db sha256 r c s = ground arith

by_cache-Change :
    (sha256 : HashInput → String) (env : Env) (r : Request) (s : Session) (o : Option Cached)
    → cache_get (cache_key sha256 r) s.cache ≡ o
    → Change s.db (transfer sha256 env r s).1.db
unfolding transfer
by_cache-Change sha256 env r s none e =
    let same : transfer sha256 env r s ≡ finish sha256 r (attempt env r s.db) s = ground arith in
    rw same (finish-Change sha256 r (attempt env r s.db) s (attempt-Leaves env r s.db))
by_cache-Change sha256 env r s (some c) e =
    let same : transfer sha256 env r s ≡ on_cached sha256 r c s = ground arith in
    rw (same, on_cached-db sha256 r c s) (Change-refl s.db)

pub transfer-Change :
    (sha256 : HashInput → String) (env : Env) (r : Request) (s : Session)
    → Change s.db (transfer sha256 env r s).1.db
transfer-Change sha256 env r s = by_cache-Change sha256 env r s _ refl
