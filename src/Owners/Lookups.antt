-- ===== src/Owners/Lookups.antt =====
-- There is one user for an email and one account for a user, on which the queries that expect at
-- most one row rely.
use miniwallet.Base.{
  ℕ, ◌≡◌, refl, String, true, false, some, List, [], ◌∷◌, any, str_eq, ◌==◌, arith, find?, sym, inl,
  inr, Bool-cases, str_eq_refl, str_eq_iff, IsOneOf, any-false,
}
use miniwallet.Errors.{Result, ok, raise}
use miniwallet.Models.{User, Account}
use miniwallet.Db.{Db, Env, insert_user, insert_account, publish_event, same_user}
use miniwallet.Schemas.{HashInput}
use miniwallet.Accounts.{account_row, opened, open_account, find_account_by_user}
use miniwallet.Auth.{get_by_email}
use miniwallet.System.{
  Reach, starts, steps, registers, opens, seeds, transfers, deposits, reserves, submits, completes,
  refunds, recovers,
}
use miniwallet.Owners.{
  Owned, reserve-Owned, compensate-Owned, seed-Owned, simulate_deposit-Owned, transfer-Owned,
  submit-Owned, complete-Owned, resolve_one-Owned,
}

-- No two users have one email.
abbrev pub HaveOwnEmails : List User → Type 0
HaveOwnEmails [] = Unit
HaveOwnEmails (u ∷ l) = (any (λ (v : User). str_eq v.email u.email) l ≡ false) × HaveOwnEmails l

-- No two accounts have one user.
abbrev pub HaveOwnUsers : List Account → Type 0
HaveOwnUsers [] = Unit
HaveOwnUsers (a ∷ l) =
    (any (λ (b : Account). same_user b.user_id a.user_id) l ≡ false) × HaveOwnUsers l

record OneEach (db : Db) : Type 0 where
  emails : HaveOwnEmails db.users
  owners : HaveOwnUsers db.accounts

Owned-OneEach : {db db' : Db} → Owned db db' → OneEach db → OneEach db'
Owned-OneEach o h = record { emails = rw o.users h.emails; owners = rw o.accounts h.owners }

registers-OneEach :
    (u : User) (db : Db) {db' : Db} → insert_user u db ≡ ok db' → OneEach db → OneEach db'
unfolding insert_user
registers-OneEach u db {db'} e h =
    let new : any (λ (v : User). str_eq v.email u.email) db.users ≡ false = ground arith in
    let users : db'.users ≡ u ∷ db.users = ground arith in
    let accounts : db'.accounts ≡ db.accounts = ground arith in
    record { emails = rw users (new, h.emails); owners = rw accounts h.owners }

opened-OneEach :
    (env : Env) (i : ℕ) (db : Db) (x : Result Db)
    → insert_account (account_row env i) db ≡ x
    → OneEach db
    → OneEach (opened env i db x).1
unfolding insert_account publish_event
opened-OneEach env i db (raise e) r h = h
opened-OneEach env i db (ok db') r h =
    let new : any (λ (b : Account). same_user b.user_id (account_row env i).user_id) db.accounts
        ≡ false =
      ground arith in
    let users : db'.users ≡ db.users = ground arith in
    let accounts : db'.accounts ≡ account_row env i ∷ db.accounts = ground arith in
    record { emails = rw users h.emails; owners = rw accounts (new, h.owners) }

open_account-OneEach :
    (env : Env) (i : ℕ) (db : Db) → OneEach db → OneEach (open_account env i db).1
unfolding open_account
open_account-OneEach env i db h = opened-OneEach env i db _ refl h

Reach-OneEach : (sha256 : HashInput → String) {db : Db} → Reach sha256 db → OneEach db
Reach-OneEach sha256 starts = record { emails = tt; owners = (refl, tt) }
Reach-OneEach sha256 (steps {db = db} r (registers u e)) =
    registers-OneEach u db e (Reach-OneEach sha256 r)
Reach-OneEach sha256 (steps {db = db} r (opens env i)) =
    open_account-OneEach env i db (Reach-OneEach sha256 r)
Reach-OneEach sha256 (steps {db = db} r (seeds env i x k u)) =
    Owned-OneEach (seed-Owned env i x k u db) (Reach-OneEach sha256 r)
Reach-OneEach sha256 (steps {db = db} r (transfers env q cache)) =
    Owned-OneEach (transfer-Owned sha256 env q (record { db = db; cache = cache }))
      (Reach-OneEach sha256 r)
Reach-OneEach sha256 (steps {db = db} r (deposits env w)) =
    Owned-OneEach (simulate_deposit-Owned env w db) (Reach-OneEach sha256 r)
Reach-OneEach sha256 (steps {db = db} r (reserves env q e)) =
    Owned-OneEach (reserve-Owned env q db e) (Reach-OneEach sha256 r)
Reach-OneEach sha256 (steps {db = db} r (submits now w)) =
    Owned-OneEach (submit-Owned now w db) (Reach-OneEach sha256 r)
Reach-OneEach sha256 (steps {db = db} r (completes env w reference actor)) =
    Owned-OneEach (complete-Owned env w reference actor db) (Reach-OneEach sha256 r)
Reach-OneEach sha256 (steps {db = db} r (refunds env w code actor e)) =
    Owned-OneEach (compensate-Owned env w code actor db e) (Reach-OneEach sha256 r)
Reach-OneEach sha256 (steps {db = db} r (recovers cfg d i s e)) =
    Owned-OneEach (resolve_one-Owned cfg d i s) (rw e (Reach-OneEach sha256 r))

find_email :
    (u : User) (l : List User)
    → HaveOwnEmails l
    → IsOneOf u l
    → find? (λ (v : User). str_eq v.email u.email) l ≡ some u
find_email u [] h mem = absurd mem
find_email u (v ∷ l) (new, rest) (inl e) = rw (sym e, str_eq_refl u.email) refl
find_email u (v ∷ l) (new, rest) (inr mem) =
    let other = any-false (λ (w : User). str_eq w.email v.email) u l new mem in
    elim (Bool-cases (str_eq v.email u.email)) [
      | inl p ↦
          (let same : v.email ≡ u.email = (str_eq_iff v.email u.email).0 p in
            let taken : str_eq u.email v.email ≡ true = rw same (str_eq_refl u.email) in
            ground (arith, other, taken))
      | inr p ↦ rw p (find_email u l rest mem)
    ]

find_owner :
    (a : Account) (i : ℕ) (l : List Account)
    → HaveOwnUsers l
    → a.user_id ≡ some i
    → IsOneOf a l
    → find? (λ (b : Account). same_user b.user_id (some i)) l ≡ some a
find_owner a i [] h e mem = absurd mem
find_owner a i (b ∷ l) (new, rest) e (inl same) =
    let own : (i == i) ≡ true = ground arith in rw (sym same, e, own) refl
find_owner a i (b ∷ l) (new, rest) e (inr mem) =
    let other = any-false (λ (c : Account). same_user c.user_id b.user_id) a l new mem in
    let apart : same_user b.user_id (some i) ≡ false = ground (arith, other, e) in
    rw apart (find_owner a i l rest e mem)

-- In every database that the service reaches, the queries that expect at most one row find it: a
-- user by the user's email, and an account by its owner.
pub Reach-lookups :
    (sha256 : HashInput → String) {db : Db} (u : User) (a : Account) (i : ℕ)
    → Reach sha256 db
    → IsOneOf u db.users
    → IsOneOf a db.accounts
    → a.user_id ≡ some i
    → (get_by_email u.email db ≡ some u) × (find_account_by_user i db ≡ some a)
unfolding get_by_email find_account_by_user
Reach-lookups sha256 {db} u a i r hu ha e =
    let h = Reach-OneEach sha256 r in
    (find_email u db.users h.emails hu, find_owner a i db.accounts h.owners e ha)
