-- ===== src/Activity/Orders.antt =====
-- The order of the events does not matter for the balances that they show; what the read model
-- shows in the end is the ledger.
use mathlib.Core.List.{Perm, Permᴰ}
use mathlib.Core.List.Permᴰ.{nil, cons, swap, trans}
use mathlib.Core.Logic.{∥∥₁_elim}
use miniwallet.Base.{ℕ, ◌≡◌, ◌≢◌, refl, ◌∙◌, String, List, [], ◌∷◌, ◌++◌}
use miniwallet.Base.Int.{ℤ}
use miniwallet.Schemas.{HashInput}
use miniwallet.Db.{Db, OutboxRow, system_account_id}
use miniwallet.Ledger.{get_balance}
use miniwallet.System.{Reach, Reach-Mirrors}
use miniwallet.Activity.{TransactionActivity, Store, activity_balance}
use miniwallet.Activity.Replay.{event_rows, replayed, shown}
use miniwallet.Activity.CatchUp.{balance_append, balance_move, Consumes, Consumes-balance}

ℤ_set : IsSet ℤ
ℤ_set = hlevel

balance_exchange :
    (a : ℕ) (j k l : List TransactionActivity)
    → activity_balance a (j ++ (k ++ l)) ≡ activity_balance a (k ++ (j ++ l))
balance_exchange a j [] l = refl
balance_exchange a j (t ∷ k) l =
    balance_move a t j (k ++ l)
    ∙ balance_append a (t ∷ []) _ (k ++ (j ++ l)) (balance_exchange a j k l)

Permᴰ-balance :
    (a : ℕ) {k l : List OutboxRow}
    → Permᴰ k l
    → activity_balance a (replayed k) ≡ activity_balance a (replayed l)
Permᴰ-balance a nil = refl
Permᴰ-balance a (cons {a = x} {b = y} {l₁ = k} {l₂ = l} e p) =
    rw e (balance_append a (event_rows y.payload) (replayed k) (replayed l) (Permᴰ-balance a p))
Permᴰ-balance a (swap {a = x} {b = y} {a' = x'} {b' = y'} {l = l} e f) =
    rw (e, f) (balance_exchange a (event_rows y'.payload) (event_rows x'.payload) (replayed l))
Permᴰ-balance a (trans p q) = Permᴰ-balance a p ∙ Permᴰ-balance a q

pub Perm-balance :
    (a : ℕ) {k l : List OutboxRow}
    → Perm k l
    → activity_balance a (replayed k) ≡ activity_balance a (replayed l)
Perm-balance a {k} {l} p = ∥∥₁_elim p (ℤ_set _ _) (λ d. Permᴰ-balance a d)

-- The read model catches up with the ledger: in every database that the service reaches, a
-- consumer that began with an empty table and has applied each event of the outbox, which keeps
-- every event that was written, once, in any order and with any redeliveries between, shows for
-- each user's account the balance that the ledger has.
read_model_catches_up :
    (sha256 : HashInput → String) {db : Db} (s : Store) {l : List OutboxRow} {m : Store} (a : ℕ)
    → Reach sha256 db
    → Perm l db.outbox
    → Consumes s l m
    → a ≢ system_account_id
    → activity_balance a m.activity ≡ get_balance db a
unfolding shown
read_model_catches_up sha256 s a reached p c user =
    Consumes-balance s a c ∙ Perm-balance a p ∙ Reach-Mirrors sha256 reached a user
