-- ===== src/System/Orders.antt =====
-- The refinement, order by order: what each step is asked to do decides whose money may move, where
-- to and how much.
use miniwallet.Base.{
  ℕ, ◌≡◌, ◌⊎◌, inl, inr, refl, sym, String, Option, none, some, List, [], ◌∷◌, arith,
}
use miniwallet.Base.Int.{ℤ, pos, ◌≤ℤ◌, int_laws}
use miniwallet.Models.{LedgerEntry, Withdrawal, WithdrawalStatus}
use miniwallet.Db.{Db, insert_ledger_entry, publish_event, system_account_id}
use miniwallet.Ledger.{get_balance}
use miniwallet.Schemas.{HashInput}
use miniwallet.Bank.{Books, moved}
use miniwallet.Accounts.Laws.{seed-ledger}
use miniwallet.Accounts.Movement.{open_account-ledger}
use miniwallet.Transfers.Effects.{transfer-ledger}
use miniwallet.Deposits.Laws.{deposit-ledger}
use miniwallet.Withdrawals.{World, update_withdrawal, submit, reversal_credit, reversal_debit}
use miniwallet.Withdrawals.Refund.{reserve-Reserved, compensate-Refunded}
use miniwallet.Withdrawals.Conclusion.{submit-ledger, complete-ledger}
use miniwallet.Circuit.{Config}
use miniwallet.Recovery.{
  Draws, by_status, find_withdrawal, recover_pending, settle_pending, recover_submitted, on_timeout,
  resolve_one,
}
use miniwallet.System.{
  Step, Reach, starts, steps, registers, opens, seeds, transfers, deposits, reserves, submits,
  completes, refunds, recovers, empty_books, registers-ledger,
}

-- An order to the abstract bank: to leave all balances, or to pay from one account to another.
pub data Order : Type 0 where
  stay : Order
  pays : ℕ → ℕ → ℤ → Order

-- A payment is refused, and nothing moves, or exactly its amount does: a positive one, which the
-- payer has, or which comes from the system's account.
abbrev pub Obeys : Order → Books → Books → Type 0
Obeys stay b c = (a : ℕ) → c a ≡ b a
Obeys (pays f t x) b c =
    ((a : ℕ) → c a ≡ b a)
    ⊎ (pos 1 ≤ℤ x) × ((f ≡ system_account_id) ⊎ (x ≤ℤ b f)) × ((a : ℕ) → c a ≡ moved f t x b a)

-- A withdrawal goes back to its account.
abbrev pub refund_of : Option Withdrawal → Order
refund_of none = stay
refund_of (some w) = pays system_account_id w.account_id w.amount

-- What the step is asked to do.
abbrev pub order_of : {sha256 : HashInput → String} {db db' : Db} → Step sha256 db db' → Order
order_of (registers u e) = stay
order_of (opens env u) = stay
order_of (seeds env i x k u) = pays system_account_id i x
order_of (transfers env r cache) = pays r.from_account_id r.to_account_id r.amount
order_of (deposits env w) = pays system_account_id w.account_id w.amount
order_of (reserves env r e) = pays r.account_id system_account_id r.amount
order_of (submits now w) = stay
order_of (completes env w reference actor) = stay
order_of (refunds env w code actor e) = refund_of (some w)
order_of (recovers cfg d i s e) = refund_of (find_withdrawal i s.db)

-- What the resolution of a row leaves of the ledger.
Refunds : Draws → Withdrawal → List LedgerEntry → List LedgerEntry → Type 0
Refunds d w l l' =
    (l' ≡ l) ⊎ (pos 1 ≤ℤ w.amount) × (l' ≡ reversal_credit d.tx w ∷ reversal_debit d.tx w ∷ l)

by_status-Refunds :
    (cfg : Config) (d : Draws) (w : Withdrawal) (s : World) (st : WithdrawalStatus)
    → Refunds d w s.db.ledger_entries (by_status cfg d w s st).db.ledger_entries
unfolding Refunds recover_pending settle_pending recover_submitted on_timeout
    miniwallet.Recovery.complete miniwallet.Recovery.compensate insert_ledger_entry publish_event
    update_withdrawal submit
by_status-Refunds cfg d w s WithdrawalStatus.pending = ground arith
by_status-Refunds cfg d w s WithdrawalStatus.submitted = ground arith
by_status-Refunds cfg d w s WithdrawalStatus.completed = inl refl
by_status-Refunds cfg d w s WithdrawalStatus.failed = inl refl

resolved-Obeys :
    (cfg : Config) (d : Draws) (i : ℕ) (s : World) (o : Option Withdrawal)
    → find_withdrawal i s.db ≡ o
    → Obeys (refund_of o) (get_balance s.db) (get_balance (resolve_one cfg d i s).db)
unfolding resolve_one get_balance Refunds
resolved-Obeys cfg d i s none e = rw e (λ a. refl)
resolved-Obeys cfg d i s (some w) e = rw e (elim (by_status-Refunds cfg d w s w.status) [
  | inl same ↦ inl (λ a. rw same refl)
  | inr (positive, legs) ↦ inr (positive, inl refl, λ a. rw legs (grind int_laws))
])

Step-Obeys :
    {sha256 : HashInput → String} {db db' : Db} (s : Step sha256 db db')
    → Obeys (order_of s) (get_balance db) (get_balance db')
unfolding get_balance
Step-Obeys {db = db} (registers u e) = λ a. rw (registers-ledger u db e) refl
Step-Obeys {db = db} (opens env u) = λ a. rw (open_account-ledger env u db) refl
Step-Obeys {db = db} (seeds env i x k u) = elim (seed-ledger env i x k u db) [
  | inl same ↦ inl (λ a. rw same refl)
  | inr m ↦ inr (m.positive, inl refl, λ a. rw m.legs (grind int_laws))
]
Step-Obeys {sha256} {db} (transfers env r cache) =
    elim (transfer-ledger sha256 env r (record { db = db; cache = cache })) [
      | inl same ↦ inl (λ a. rw same refl)
      | inr m ↦ inr (m.positive, inr m.funded, λ a. rw m.legs (grind int_laws))
    ]
Step-Obeys {db = db} (deposits env w) = elim (deposit-ledger env w db) [
  | inl same ↦ inl (λ a. rw same refl)
  | inr m ↦ inr (m.positive, inl refl, λ a. rw m.legs (grind int_laws))
]
Step-Obeys {db = db} (reserves env r e) =
    let f = reserve-Reserved env r db e in
    inr (f.positive, inr f.funded, λ a. rw f.ledger (grind (int_laws, f.user)))
Step-Obeys {db = db} (submits now w) = λ a. rw (submit-ledger now w db) refl
Step-Obeys {db = db} (completes env w reference actor) =
    λ a. rw (complete-ledger env w reference actor db) refl
Step-Obeys {db = db} (refunds env w code actor e) =
    let f = compensate-Refunded env w code actor db e in
    inr (f.positive, inl refl, λ a. rw f.ledger (grind int_laws))
Step-Obeys (recovers cfg d i s e) =
    rw (sym e) (resolved-Obeys cfg d i s (find_withdrawal i s.db) refl)

-- What a run was asked to do, the last order first.
pub orders_of : {sha256 : HashInput → String} {db : Db} → Reach sha256 db → List Order
orders_of starts = []
orders_of (steps r s) = order_of s ∷ orders_of r

-- A run of the abstract bank.
abbrev pub Executes : List Order → Books → Books → Type 0
Executes [] b c = (a : ℕ) → c a ≡ b a
Executes (o ∷ l) b c = (mid : Books) × Executes l b mid × Obeys o mid c

-- Every run of the service is, seen from its balances, a run of the abstract bank on the orders that
-- its steps were given, starting with no money anywhere. A seed, a transfer, a deposit, a reservation,
-- a refund and a resolution each move exactly the amount that they were asked for, from the payer
-- that they were asked for to its receiver, if the amount is positive and the payer, unless it is
-- the system, has it; or they move nothing. A registration, an opening, a submission and a
-- completion move nothing.
pub Reach-Executes :
    {sha256 : HashInput → String} {db : Db} (r : Reach sha256 db)
    → Executes (orders_of r) empty_books (get_balance db)
unfolding get_balance orders_of
Reach-Executes starts = λ a. refl
Reach-Executes (steps {db = db} r s) = (get_balance db, Reach-Executes r, Step-Obeys s)
