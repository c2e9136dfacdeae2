-- ===== src/Backing/Tables.antt =====
-- What a transaction does to the tables, and that the entries which stand behind their rows stay.
use miniwallet.Base.{
  ℕ, ◌≡◌, List, [], ◌∷◌, ◌++◌, map, All-map, arith, ◌==◌, if◌then◌else◌, if_intro,
}
use miniwallet.Models.{LedgerEntry, Transfer, Deposit, Withdrawal}
use miniwallet.Db.{Db}
use miniwallet.Backing.{TransferStands, DepositStands, RefundStands, WithdrawalStands, IsBacked}
use miniwallet.Backing.Growth.{AreBacked-grows}

-- What a transaction leaves as it is.
pub record SameTables (db db' : Db) : Type 0 where
  pub transfers : db'.transfers ≡ db.transfers
  pub deposits : db'.deposits ≡ db.deposits
  pub withdrawals : db'.withdrawals ≡ db.withdrawals

pub posts_entries :
    {db db' : Db} (new : List LedgerEntry)
    → db'.ledger_entries ≡ new ++ db.ledger_entries
    → SameTables db db'
    → IsBacked db
    → IsBacked db'
posts_entries new e s h = record {
  rows = rw (e, s.transfers, s.deposits, s.withdrawals) (AreBacked-grows new h.rows);
}

module _ {db db' : Db} (h : IsBacked db) where
  -- A new row of each table, with the entries that stand behind it.
  pub adds_transfer :
      (t : Transfer) (new : List LedgerEntry)
      → db'.ledger_entries ≡ new ++ db.ledger_entries
      → db'.transfers ≡ t ∷ db.transfers
      → db'.deposits ≡ db.deposits
      → db'.withdrawals ≡ db.withdrawals
      → TransferStands (new ++ db.ledger_entries) t t.status
      → IsBacked db'
  adds_transfer t new e e₁ e₂ e₃ stands =
      let old = AreBacked-grows new h.rows in
      record {
        rows =
            rw (e, e₁, e₂, e₃)
              (record {
                transfers = (stands, old.transfers);
                deposits = old.deposits;
                withdrawals = old.withdrawals;
              });
      }

  pub adds_withdrawal :
      (w : Withdrawal) (new : List LedgerEntry)
      → db'.ledger_entries ≡ new ++ db.ledger_entries
      → db'.transfers ≡ db.transfers
      → db'.deposits ≡ db.deposits
      → db'.withdrawals ≡ w ∷ db.withdrawals
      → WithdrawalStands (new ++ db.ledger_entries) w
      → IsBacked db'
  adds_withdrawal w new e e₁ e₂ e₃ stands =
      let old = AreBacked-grows new h.rows in
      record {
        rows =
            rw (e, e₁, e₂, e₃)
              (record {
                transfers = old.transfers;
                deposits = old.deposits;
                withdrawals = (stands, old.withdrawals);
              });
      }

  -- A deposit's row is inserted, and overwritten in the same transaction.
  pub adds_deposit :
      (pending row : Deposit) (new : List LedgerEntry)
      → db'.ledger_entries ≡ new ++ db.ledger_entries
      → db'.transfers ≡ db.transfers
      → db'.deposits
        ≡ map (λ (d : Deposit). if d.id == row.id then row else d) (pending ∷ db.deposits)
      → db'.withdrawals ≡ db.withdrawals
      → DepositStands (new ++ db.ledger_entries) pending pending.status
      → DepositStands (new ++ db.ledger_entries) row row.status
      → IsBacked db'
  adds_deposit pending row new e e₁ e₂ e₃ first stands =
      let old = AreBacked-grows new h.rows in
      let P : Deposit → Type 0 =
        λ (d : Deposit). DepositStands (new ++ db.ledger_entries) d d.status in
      record {
        rows =
            rw (e, e₁, e₂, e₃)
              (record {
                transfers = old.transfers;
                deposits =
                    All-map P (λ (d : Deposit). if d.id == row.id then row else d)
                      (pending ∷ db.deposits)
                      (λ d k. if_intro P (d.id == row.id) row d (λ _. stands) (λ _. k))
                      (first, old.deposits);
                withdrawals = old.withdrawals;
              });
      }

  -- A withdrawal's row is overwritten.
  pub changes_withdrawal :
      (i : ℕ) (f : Withdrawal → Withdrawal) (new : List LedgerEntry)
      → db'.ledger_entries ≡ new ++ db.ledger_entries
      → db'.transfers ≡ db.transfers
      → db'.deposits ≡ db.deposits
      → db'.withdrawals ≡ map (λ (w : Withdrawal). if w.id == i then f w else w) db.withdrawals
      → ((w : Withdrawal)
          → w.id ≡ i
          → WithdrawalStands (new ++ db.ledger_entries) w
          → WithdrawalStands (new ++ db.ledger_entries) (f w))
      → IsBacked db'
  changes_withdrawal i f new e e₁ e₂ e₃ stands =
      let old = AreBacked-grows new h.rows in
      let P : Withdrawal → Type 0 = WithdrawalStands (new ++ db.ledger_entries) in
      record {
        rows =
            rw (e, e₁, e₂, e₃)
              (record {
                transfers = old.transfers;
                deposits = old.deposits;
                withdrawals =
                    All-map P (λ (w : Withdrawal). if w.id == i then f w else w) db.withdrawals
                      (λ w k.
                        if_intro P (w.id == i) (f w) w (λ same. stands w (ground (arith, same)) k)
                          (λ _. k))
                      old.withdrawals;
              });
      }

-- A row that has another status, and is the same otherwise.
pub restated :
    (l : List LedgerEntry) (w v : Withdrawal)
    → v.id ≡ w.id
    → v.account_id ≡ w.account_id
    → v.amount ≡ w.amount
    → RefundStands l v v.status
    → WithdrawalStands l w
    → WithdrawalStands l v
restated l w v i a x refunded h = record {
  taken = rw (i, a, x) h.taken;
  received = rw (i, x) h.received;
  refunded = refunded;
}

-- The row with an id gets a status that says nothing of a refund, and nothing is posted.
abbrev pub IsRestated : Withdrawal → Withdrawal → Type 0
IsRestated w v =
    (v.id ≡ w.id)
    × (v.account_id ≡ w.account_id)
    × (v.amount ≡ w.amount)
    × ((l : List LedgerEntry) → RefundStands l v v.status)

pub restates :
    {db db' : Db} (h : IsBacked db) (i : ℕ) (f : Withdrawal → Withdrawal)
    → ((w : Withdrawal) → IsRestated w (f w))
    → db'.ledger_entries ≡ db.ledger_entries
    → db'.transfers ≡ db.transfers
    → db'.deposits ≡ db.deposits
    → db'.withdrawals ≡ map (λ (w : Withdrawal). if w.id == i then f w else w) db.withdrawals
    → IsBacked db'
restates {db} h i f same e e₁ e₂ e₃ = changes_withdrawal h i f [] e e₁ e₂ e₃ (λ w _ stands.
    let (a, b, c, d) = same w in
    restated db.ledger_entries w (f w) a b c (d db.ledger_entries) stands)
