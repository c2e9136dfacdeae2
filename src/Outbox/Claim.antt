-- ===== src/Outbox/Claim.antt =====
-- What `claim_batch` takes: as many of the rows that wait as a batch holds.
use miniwallet.Base.{
  ℕ, zero, suc, ◌≡◌, ◌≢◌, ◌≤◌, inl, inr, refl, sym, ◌+◌, ◌-◌, List, [], ◌∷◌, Bool, false, not, ◌&&◌,
  All, filter, take, length, ltb, arith, Bool-cases,
}
use miniwallet.Db.{OutboxRow}
use miniwallet.Outbox.{select_batch, is_pending, insert_by_time, sort_by_time, batch_size}
use miniwallet.Outbox.Batch.{All-sort, All-take}
use miniwallet.Outbox.Confirm.{count_open, AreDistinct, IsIdle}

insert-length : (r : OutboxRow) (l : List OutboxRow) → length (insert_by_time r l) ≡ suc (length l)
insert-length r [] = refl
insert-length r (x ∷ l) = ground (arith, insert-length r l)

sort-length : (l : List OutboxRow) → length (sort_by_time l) ≡ length l
sort-length [] = refl
sort-length (r ∷ l) = ground (arith, insert-length r (sort_by_time l), sort-length l)

take-length : (n : ℕ) (l : List OutboxRow) → length l ≤ length (take n l) + (length l - n)
take-length zero l = ground arith
take-length (suc n) [] = ground arith
take-length (suc n) (x ∷ l) = ground (arith, take-length n l)

abbrev IsApart : ℕ → OutboxRow → Type 0
IsApart i x = i ≢ x.id

insert-IsApart :
    (i : ℕ) (r : OutboxRow) (l : List OutboxRow)
    → i ≢ r.id
    → All (IsApart i) l
    → All (IsApart i) (insert_by_time r l)
insert-IsApart i r [] ne h = (ne, tt)
insert-IsApart i r (x ∷ l) ne (h, hs) = elim (Bool-cases (ltb x.created_at r.created_at)) [
  | inl later ↦ rw later (h, insert-IsApart i r l ne hs)
  | inr first ↦ rw first (ne, (h, hs))
]

insert-AreDistinct :
    (r : OutboxRow) (l : List OutboxRow)
    → All (IsApart r.id) l
    → AreDistinct l
    → AreDistinct (insert_by_time r l)
insert-AreDistinct r [] ne d = (tt, tt)
insert-AreDistinct r (x ∷ l) (ne, nes) (h, d) = elim (Bool-cases (ltb x.created_at r.created_at)) [
  | inl later ↦ rw later (insert-IsApart x.id r l (λ e. ne (sym e)) h, insert-AreDistinct r l nes d)
  | inr first ↦ rw first ((ne, nes), (h, d))
]

sort-AreDistinct : (l : List OutboxRow) → AreDistinct l → AreDistinct (sort_by_time l)
sort-AreDistinct [] d = tt
sort-AreDistinct (r ∷ l) (ne, d) =
    insert-AreDistinct r (sort_by_time l) (All-sort (IsApart r.id) l ne) (sort-AreDistinct l d)

take-AreDistinct : (n : ℕ) (l : List OutboxRow) → AreDistinct l → AreDistinct (take n l)
take-AreDistinct zero l d = tt
take-AreDistinct (suc n) [] d = tt
take-AreDistinct (suc n) (x ∷ l) (ne, d) = (All-take (IsApart x.id) n l ne, take-AreDistinct n l d)

filter-IsApart :
    (p : OutboxRow → Bool) (i : ℕ) (l : List OutboxRow)
    → All (IsApart i) l
    → All (IsApart i) (filter p l)
filter-IsApart p i [] h = tt
filter-IsApart p i (x ∷ l) (h, hs) = elim (Bool-cases (p x)) [
  | inl kept ↦ rw kept (h, filter-IsApart p i l hs)
  | inr gone ↦ rw gone (filter-IsApart p i l hs)
]

pub filter-AreDistinct :
    (p : OutboxRow → Bool) (l : List OutboxRow) → AreDistinct l → AreDistinct (filter p l)
filter-AreDistinct p [] d = tt
filter-AreDistinct p (x ∷ l) (ne, d) = elim (Bool-cases (p x)) [
  | inl kept ↦ rw kept (filter-IsApart p x.id l ne, filter-AreDistinct p l d)
  | inr gone ↦ rw gone (filter-AreDistinct p l d)
]

-- What is not locked and waits.
abbrev is_free : (ℕ → Bool) → OutboxRow → Bool
is_free locked r = is_pending r.status && not (locked r.id)

free-length :
    (locked : ℕ → Bool) (l : List OutboxRow)
    → ((i : ℕ) → locked i ≡ false)
    → All IsIdle l
    → length (filter (is_free locked) l) ≡ count_open l
free-length locked [] free h = refl
free-length locked (x ∷ l) free (h, hs) = ground (arith, h, free x.id, free-length locked l free hs)

pub select_batch-length :
    (locked : ℕ → Bool) (l : List OutboxRow)
    → ((i : ℕ) → locked i ≡ false)
    → All IsIdle l
    → count_open l ≤ length (select_batch locked l) + (count_open l - 100)
unfolding select_batch
select_batch-length locked l free h =
    let n = free-length locked l free h in
    let m = sort-length (filter (is_free locked) l) in
    let k = take-length batch_size (sort_by_time (filter (is_free locked) l)) in
    ground (arith, n, m, k)

pub select_batch-AreDistinct :
    (locked : ℕ → Bool) (l : List OutboxRow) → AreDistinct l → AreDistinct (select_batch locked l)
unfolding select_batch
select_batch-AreDistinct locked l d =
    take-AreDistinct batch_size _ (sort-AreDistinct _ (filter-AreDistinct (is_free locked) l d))
