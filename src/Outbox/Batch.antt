-- ===== src/Outbox/Batch.antt =====
-- What a batch of the relay holds.
use miniwallet.Base.{
  ℕ, zero, suc, ◌≤◌, ◌≡◌, List, [], ◌∷◌, Bool, true, false, ◌&&◌, not, if_intro, filter, take, All,
  arith, ltb, length,
}
use miniwallet.Db.{OutboxRow}
use miniwallet.Outbox.{is_pending, sort_by_time, insert_by_time}

-- Oldest first.
abbrev pub IsOldestFirst : List OutboxRow → Type 0
IsOldestFirst [] = Unit
IsOldestFirst (r ∷ l) = All (λ (x : OutboxRow). r.created_at ≤ x.created_at) l × IsOldestFirst l

abbrev pub IsFree : (ℕ → Bool) → OutboxRow → Type 0
IsFree locked r = (is_pending r.status ≡ true) × (locked r.id ≡ false)

module _ (P : OutboxRow → Type 0) where
  All-insert : (r : OutboxRow) (l : List OutboxRow) → P r → All P l → All P (insert_by_time r l)
  All-insert r [] h a = (h, a)
  All-insert r (x ∷ l) h (a, rest) =
      if_intro (All P) (ltb x.created_at r.created_at) (x ∷ insert_by_time r l) (r ∷ x ∷ l)
        (λ _. (a, All-insert r l h rest)) (λ _. (h, (a, rest)))

  pub All-sort : (l : List OutboxRow) → All P l → All P (sort_by_time l)
  All-sort [] a = a
  All-sort (r ∷ l) (h, a) = All-insert r (sort_by_time l) h (All-sort l a)

  pub All-take : (n : ℕ) (l : List OutboxRow) → All P l → All P (take n l)
  All-take zero l a = tt
  All-take (suc n) [] a = a
  All-take (suc n) (x ∷ l) (h, a) = (h, All-take n l a)

All-weaken :
    (l : List OutboxRow) (a b : ℕ)
    → a ≤ b
    → All (λ (x : OutboxRow). b ≤ x.created_at) l
    → All (λ (x : OutboxRow). a ≤ x.created_at) l
All-weaken [] a b h p = tt
All-weaken (x ∷ l) a b h (p, rest) = (ground arith, All-weaken l a b h rest)

insert-IsOldestFirst :
    (r : OutboxRow) (l : List OutboxRow) → IsOldestFirst l → IsOldestFirst (insert_by_time r l)
insert-IsOldestFirst r [] h = (tt, tt)
insert-IsOldestFirst r (x ∷ l) (h, rest) =
    if_intro IsOldestFirst (ltb x.created_at r.created_at) (x ∷ insert_by_time r l) (r ∷ x ∷ l)
      (λ e. (
        All-insert (λ y. x.created_at ≤ y.created_at) r l (ground (arith, e)) h,
        insert-IsOldestFirst r l rest,
      ))
      (λ e. (
        (ground (arith, e), All-weaken l r.created_at x.created_at (ground (arith, e)) h),
        (h, rest),
      ))

pub sort-IsOldestFirst : (l : List OutboxRow) → IsOldestFirst (sort_by_time l)
sort-IsOldestFirst [] = tt
sort-IsOldestFirst (r ∷ l) = insert-IsOldestFirst r (sort_by_time l) (sort-IsOldestFirst l)

pub take-IsOldestFirst : (n : ℕ) (l : List OutboxRow) → IsOldestFirst l → IsOldestFirst (take n l)
take-IsOldestFirst zero l h = tt
take-IsOldestFirst (suc n) [] h = tt
take-IsOldestFirst (suc n) (x ∷ l) (h, rest) =
    (All-take (λ y. x.created_at ≤ y.created_at) n l h, take-IsOldestFirst n l rest)

pub length-take : (n : ℕ) (l : List OutboxRow) → length (take n l) ≤ n
length-take zero l = ground arith
length-take (suc n) [] = ground arith
length-take (suc n) (x ∷ l) = ground (arith, length-take n l)

pub filter-All :
    (locked : ℕ → Bool) (l : List OutboxRow)
    → All (IsFree locked) (filter (λ (r : OutboxRow). is_pending r.status && not (locked r.id)) l)
filter-All locked [] = tt
filter-All locked (x ∷ l) =
    if_intro (All (IsFree locked)) (is_pending x.status && not (locked x.id)) _ _
      (λ e. ((ground (arith, e), ground (arith, e)), filter-All locked l))
      (λ _. filter-All locked l)
