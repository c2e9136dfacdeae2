-- ===== src/Outbox/Selection.antt =====
-- Which rows `claim_batch` selects: no row that waits is passed over for a younger one.
use miniwallet.Base.{
  ℕ, zero, suc, ◌≤◌, ◌≡◌, ◌⊎◌, inl, inr, refl, List, [], ◌∷◌, Bool, ◌&&◌, not, if_intro, filter,
  take, All, All-each, All-imp, All-intro, IsOneOf, arith, ltb, length,
}
use miniwallet.Db.{OutboxRow}
use miniwallet.Outbox.{select_batch, is_pending, sort_by_time, insert_by_time, batch_size}
use miniwallet.Outbox.Batch.{
  IsOldestFirst, IsFree, All-sort, All-take, sort-IsOldestFirst, take-IsOldestFirst, length-take,
  filter-All,
}
use miniwallet.Outbox.Confirm.{AreDistinct}
use miniwallet.Outbox.Claim.{select_batch-AreDistinct}
use miniwallet.Outbox.Claimed.{IsPendingOf, select_batch-IsPendingOf}

insert-mem_new : (r : OutboxRow) (l : List OutboxRow) → IsOneOf r (insert_by_time r l)
insert-mem_new r [] = inl refl
insert-mem_new r (x ∷ l) =
    if_intro (IsOneOf r) (ltb x.created_at r.created_at) _ _ (λ _. inr (insert-mem_new r l))
      (λ _. inl refl)

insert-mem_old :
    (a r : OutboxRow) (l : List OutboxRow) → IsOneOf a l → IsOneOf a (insert_by_time r l)
insert-mem_old a r [] mem = absurd mem
insert-mem_old a r (x ∷ l) (inl e) =
    if_intro (IsOneOf a) (ltb x.created_at r.created_at) _ _ (λ _. inl e) (λ _. inr (inl e))
insert-mem_old a r (x ∷ l) (inr mem) =
    if_intro (IsOneOf a) (ltb x.created_at r.created_at) _ _ (λ _. inr (insert-mem_old a r l mem))
      (λ _. inr (inr mem))

sort-mem : (a : OutboxRow) (l : List OutboxRow) → IsOneOf a l → IsOneOf a (sort_by_time l)
sort-mem a [] mem = absurd mem
sort-mem a (r ∷ l) (inl e) = rw e (insert-mem_new r (sort_by_time l))
sort-mem a (r ∷ l) (inr mem) = insert-mem_old a r (sort_by_time l) (sort-mem a l mem)

-- A row that waits is in the batch, or the batch is full of rows that are no younger.
abbrev pub IsServed : List OutboxRow → OutboxRow → Type 0
IsServed rows r =
    IsOneOf r rows ⊎ (length rows ≡ 100) × All (λ (x : OutboxRow). x.created_at ≤ r.created_at) rows

take_serves :
    (n : ℕ) (l : List OutboxRow) (r : OutboxRow)
    → IsOldestFirst l
    → IsOneOf r l
    → IsOneOf r (take n l)
      ⊎ (length (take n l) ≡ n) × All (λ (x : OutboxRow). x.created_at ≤ r.created_at) (take n l)
take_serves n [] r h mem = absurd mem
take_serves zero (x ∷ l) r h mem = inr (refl, tt)
take_serves (suc n) (x ∷ l) r h (inl e) = inl (inl e)
take_serves (suc n) (x ∷ l) r (first, h) (inr mem) = elim (take_serves n l r h mem) [
  | inl chosen ↦ inl (inr chosen)
  | inr (full, older) ↦
      let le = All-each (λ (y : OutboxRow). x.created_at ≤ y.created_at) r l first mem in
      inr (ground (arith, full), (le, older))
]

-- In a table with one row for each id: a batch has at most a hundred rows, all of them of the table,
-- pending, locked by no other transaction, no id twice, oldest first. And no row is passed over: each
-- row that is pending and not locked is in the batch, or the batch has a hundred rows, none of them
-- younger.
pub select_batch_oldest :
    (locked : ℕ → Bool) (outbox : List OutboxRow)
    → AreDistinct outbox
    → let rows = select_batch locked outbox in
      (length rows ≤ 100)
      × IsOldestFirst rows
      × AreDistinct rows
      × All (IsFree locked) rows
      × All (λ (x : OutboxRow). IsOneOf x outbox) rows
      × All
          (IsServed rows)
          (filter (λ (r : OutboxRow). is_pending r.status && not (locked r.id)) outbox)
unfolding select_batch
select_batch_oldest locked outbox d = (
  bounded,
  ordered,
  select_batch-AreDistinct locked outbox d,
  free_rows,
  All-imp (IsPendingOf outbox) (λ (x : OutboxRow). IsOneOf x outbox) _ (λ x h. h.0)
      (select_batch-IsPendingOf locked outbox),
  served,
)
  where
    free : List OutboxRow
    free = filter (λ (r : OutboxRow). is_pending r.status && not (locked r.id)) outbox

    bounded : length (select_batch locked outbox) ≤ 100
    bounded = length-take batch_size (sort_by_time free)

    ordered : IsOldestFirst (select_batch locked outbox)
    ordered = take-IsOldestFirst batch_size (sort_by_time free) (sort-IsOldestFirst free)

    free_rows : All (IsFree locked) (select_batch locked outbox)
    free_rows =
        All-take (IsFree locked) batch_size (sort_by_time free)
          (All-sort (IsFree locked) free (filter-All locked outbox))

    served : All (IsServed (select_batch locked outbox)) free
    served = All-intro (IsServed (take batch_size (sort_by_time free))) free (λ r mem.
        take_serves batch_size (sort_by_time free) r (sort-IsOldestFirst free)
          (sort-mem r free mem))
