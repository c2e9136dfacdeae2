-- ===== src/Bank.antt =====
-- What the whole service promises, without tables: balances, and movements of money between them.
-- A `Change` is what any transaction of the code may do to the database.
use miniwallet.Base.{ℕ, ◌≡◌, ◌≢◌, ◌⊎◌, refl, sym, ◌∙◌, ◌==◌, if◌then◌else◌}
use miniwallet.Base.Int.{ℤ, pos, ◌+ℤ◌, ◌-ℤ◌, ◌≤ℤ◌}
use miniwallet.Db.{Db, system_account_id}
use miniwallet.Ledger.{get_balance}
use miniwallet.Activity.Replay.{shown}
use miniwallet.Backing.{IsBacked}
use miniwallet.Activity.Readable.{Emits, Emits-trans, Emits-nothing, same_accounts}

-- The abstract state: the balance of each account.
abbrev pub Books : Type 0
Books = ℕ → ℤ

-- An amount goes from one account to another.
abbrev pub moved : ℕ → ℕ → ℤ → Books → Books
moved f t x b a =
    let received = if t == a then b a +ℤ x else b a in if f == a then received -ℤ x else received

-- What a transaction does to the ledger's balances, and to those that the events show to users, which
-- events it writes, and that the entries stay which stand behind the other tables' rows.
pub data Change (db db' : Db) : Type 0 where
  keeps :
      ((a : ℕ) → get_balance db' a ≡ get_balance db a)
      → ((a : ℕ) → a ≢ system_account_id → shown db' a ≡ shown db a)
      → Emits db db'
      → (IsBacked db → IsBacked db')
      → Change db db'
  posts :
      (f t : ℕ) (x : ℤ)
      → pos 1 ≤ℤ x
      → (f ≡ system_account_id) ⊎ (x ≤ℤ get_balance db f)
      → ((a : ℕ) → get_balance db' a ≡ moved f t x (get_balance db) a)
      → ((a : ℕ) → a ≢ system_account_id → shown db' a ≡ moved f t x (shown db) a)
      → Emits db db'
      → (IsBacked db → IsBacked db')
      → Change db db'

pub Change-refl : (db : Db) → Change db db
Change-refl db = keeps (λ a. refl) (λ a h. refl) (Emits-nothing refl (same_accounts refl)) (λ b. b)

-- For each user the events show the balance that the ledger has.
abbrev pub Mirrors : Db → Type 0
Mirrors db = (a : ℕ) → a ≢ system_account_id → shown db a ≡ get_balance db a

Change-Emits : {db db' : Db} → Change db db' → Emits db db'
Change-Emits (keeps _ _ e _) = e
Change-Emits (posts _ _ _ _ _ _ _ e _) = e

Change-IsBacked : {db db' : Db} → Change db db' → IsBacked db → IsBacked db'
Change-IsBacked (keeps _ _ _ b) = b
Change-IsBacked (posts _ _ _ _ _ _ _ _ b) = b

-- A change keeps what the events show in step with the ledger.
pub Change-Mirrors : {db db' : Db} → Change db db' → Mirrors db → Mirrors db'
Change-Mirrors (keeps same seen _ _) m a h = seen a h ∙ m a h ∙ sym (same a)
Change-Mirrors (posts f t x _ _ eq seen _ _) m a h = cc (seen a h, m a h, eq a)

-- One change after another.
pub data Changes (db : Db) : Db → Type 0 where
  none_yet : Changes db db
  and_then : {mid db' : Db} → Changes db mid → Change mid db' → Changes db db'

pub Changes-Mirrors : {db db' : Db} → Changes db db' → Mirrors db → Mirrors db'
Changes-Mirrors none_yet m = m
Changes-Mirrors (and_then cs c) m = Change-Mirrors c (Changes-Mirrors cs m)

pub Changes-Emits : {db db' : Db} → Changes db db' → Emits db db'
Changes-Emits none_yet = Emits-nothing refl (same_accounts refl)
Changes-Emits (and_then cs c) = Emits-trans (Changes-Emits cs) (Change-Emits c)

pub Changes-IsBacked : {db db' : Db} → Changes db db' → IsBacked db → IsBacked db'
Changes-IsBacked none_yet b = b
Changes-IsBacked (and_then cs c) b = Change-IsBacked c (Changes-IsBacked cs b)

pub Changes-append : {db mid db' : Db} → Changes db mid → Changes mid db' → Changes db db'
Changes-append cs none_yet = cs
Changes-append cs (and_then ds d) = and_then (Changes-append cs ds) d
