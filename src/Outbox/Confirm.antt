-- ===== src/Outbox/Confirm.antt =====
-- What `confirm_batch` makes of the table: fewer rows wait, and none is left halfway.
use miniwallet.Base.{
  ℕ, ◌≡◌, ◌≢◌, ◌⊎◌, inl, inr, refl, ◌+◌, List, [], ◌∷◌, Bool, true, false, ◌==◌, ◌||◌,
  if◌then◌else◌, All, length, arith, Bool-cases,
}
use miniwallet.Models.{OutboxStatus}
use miniwallet.Db.{OutboxRow}
use miniwallet.Outbox.{merge, confirm_batch, contains_id, is_pending, is_publishing, is_published}

-- A row that still has to be delivered.
abbrev pub is_open : OutboxStatus → Bool
is_open st = is_pending st || is_publishing st

abbrev pub count_open : List OutboxRow → ℕ
count_open [] = 0
count_open (r ∷ l) = (if is_open r.status then 1 else 0) + count_open l

-- `id` is a primary key.
abbrev pub AreDistinct : List OutboxRow → Type 0
AreDistinct [] = Unit
AreDistinct (r ∷ l) = All (λ (x : OutboxRow). r.id ≢ x.id) l × AreDistinct l

abbrev pub IsIdle : OutboxRow → Type 0
IsIdle r = is_publishing r.status ≡ false

abbrev pub IsPublished : OutboxRow → Type 0
IsPublished r = is_published r.status ≡ true

-- The row with the id, which is the first one, still has to be delivered.
abbrev pub waits_at : ℕ → List OutboxRow → Bool
waits_at i [] = false
waits_at i (x ∷ l) = let rest = waits_at i l in if x.id == i then is_open x.status else rest

published-open : (st : OutboxStatus) → is_published st ≡ true → is_open st ≡ false
published-open OutboxStatus.published h = refl
published-open OutboxStatus.pending h = absurd (ground (arith, h))
published-open OutboxStatus.publishing h = absurd (ground (arith, h))
published-open OutboxStatus.failed h = absurd (ground (arith, h))

merge-count :
    (r : OutboxRow) (l : List OutboxRow)
    → IsPublished r
    → waits_at r.id l ≡ true
    → count_open (merge r l) + 1 ≡ count_open l
merge-count r [] p h = absurd (ground (arith, h))
merge-count r (x ∷ l) p h = ground (arith, published-open r.status p, merge-count r l p, h)

merge-waits :
    (i : ℕ) (r : OutboxRow) (l : List OutboxRow)
    → i ≢ r.id
    → waits_at i l ≡ true
    → waits_at i (merge r l) ≡ true
merge-waits i r [] ne h = absurd (ground (arith, h))
merge-waits i r (x ∷ l) ne h = ground (arith, ne, h, merge-waits i r l ne)

merge-All-waits :
    (r : OutboxRow) (rows l : List OutboxRow)
    → All (λ (x : OutboxRow). r.id ≢ x.id) rows
    → All (λ (x : OutboxRow). waits_at x.id l ≡ true) rows
    → All (λ (x : OutboxRow). waits_at x.id (merge r l) ≡ true) rows
merge-All-waits r [] l ne h = tt
merge-All-waits r (x ∷ rows) l (ne, nes) (h, hs) =
    (merge-waits x.id r l (λ e. ground (arith, ne, e)) h, merge-All-waits r rows l nes hs)

pub confirm-count :
    (rows l : List OutboxRow)
    → AreDistinct rows
    → All IsPublished rows
    → All (λ (x : OutboxRow). waits_at x.id l ≡ true) rows
    → count_open (confirm_batch rows l) + length rows ≡ count_open l
unfolding confirm_batch
confirm-count [] l d p h = ground arith
confirm-count (r ∷ rows) l (ne, d) (p, ps) (h, hs) =
    let now = merge-count r l p h in
    let later = confirm-count rows (merge r l) d ps (merge-All-waits r rows l ne hs) in
    ground (arith, now, later)

merge-apart :
    (i : ℕ) (r : OutboxRow) (l : List OutboxRow)
    → i ≢ r.id
    → All (λ (x : OutboxRow). i ≢ x.id) l
    → All (λ (x : OutboxRow). i ≢ x.id) (merge r l)
merge-apart i r [] ne h = (ne, tt)
merge-apart i r (x ∷ l) ne (h, hs) = elim (Bool-cases (x.id == r.id)) [
  | inl same ↦ rw same (ne, hs)
  | inr other ↦ rw other (h, merge-apart i r l ne hs)
]

merge-AreDistinct : (r : OutboxRow) (l : List OutboxRow) → AreDistinct l → AreDistinct (merge r l)
merge-AreDistinct r [] d = (tt, tt)
merge-AreDistinct r (x ∷ l) (ne, d) = elim (Bool-cases (x.id == r.id)) [
  | inl same ↦ let e : x.id ≡ r.id = ground (arith, same) in rw same (rw e at ne, d)
  | inr other ↦
      rw other (merge-apart x.id r l (λ e. ground (arith, other, e)) ne, merge-AreDistinct r l d)
]

pub confirm-AreDistinct :
    (rows l : List OutboxRow) → AreDistinct l → AreDistinct (confirm_batch rows l)
unfolding confirm_batch
confirm-AreDistinct [] l d = d
confirm-AreDistinct (r ∷ rows) l d = confirm-AreDistinct rows (merge r l) (merge-AreDistinct r l d)

-- A row that is idle, or about to be overwritten.
abbrev pub IsSettled : List OutboxRow → OutboxRow → Type 0
IsSettled rows x = IsIdle x ⊎ (contains_id rows x.id ≡ true)

published-idle : (st : OutboxStatus) → is_published st ≡ true → is_publishing st ≡ false
published-idle OutboxStatus.published h = refl
published-idle OutboxStatus.pending h = refl
published-idle OutboxStatus.publishing h = absurd (ground (arith, h))
published-idle OutboxStatus.failed h = refl

other-IsSettled :
    (r x : OutboxRow) (rows : List OutboxRow)
    → r.id ≢ x.id
    → IsSettled (r ∷ rows) x
    → IsSettled rows x
other-IsSettled r x rows ne (inl idle) = inl idle
other-IsSettled r x rows ne (inr h) = inr (ground (arith, ne, h))

others-IsSettled :
    (r : OutboxRow) (rows l : List OutboxRow)
    → All (λ (x : OutboxRow). r.id ≢ x.id) l
    → All (IsSettled (r ∷ rows)) l
    → All (IsSettled rows) l
others-IsSettled r rows [] ne h = tt
others-IsSettled r rows (x ∷ l) (ne, nes) (h, hs) =
    (other-IsSettled r x rows ne h, others-IsSettled r rows l nes hs)

merge-IsSettled :
    (r : OutboxRow) (rows l : List OutboxRow)
    → IsPublished r
    → AreDistinct l
    → All (IsSettled (r ∷ rows)) l
    → All (IsSettled rows) (merge r l)
merge-IsSettled r rows [] p d h = (inl (published-idle r.status p), tt)
merge-IsSettled r rows (x ∷ l) p (ne, d) (h, hs) = elim (Bool-cases (x.id == r.id)) [
  | inl same ↦
      let e : x.id ≡ r.id = ground (arith, same) in
      rw same (inl (published-idle r.status p), others-IsSettled r rows l (rw e at ne) hs)
  | inr other ↦
      rw other (
        other-IsSettled r x rows (λ e. ground (arith, other, e)) h,
        merge-IsSettled r rows l p d hs,
      )
]

IsIdle-settled : (x : OutboxRow) → IsSettled [] x → IsIdle x
IsIdle-settled x (inl idle) = idle
IsIdle-settled x (inr h) = absurd (ground (arith, h))

all-IsIdle : (l : List OutboxRow) → All (IsSettled []) l → All IsIdle l
all-IsIdle [] h = tt
all-IsIdle (x ∷ l) (h, hs) = (IsIdle-settled x h, all-IsIdle l hs)

pub confirm-IsIdle :
    (rows l : List OutboxRow)
    → All IsPublished rows
    → AreDistinct l
    → All (IsSettled rows) l
    → All IsIdle (confirm_batch rows l)
unfolding confirm_batch
confirm-IsIdle [] l p d h = all-IsIdle l h
confirm-IsIdle (r ∷ rows) l (p, ps) d h =
    confirm-IsIdle rows (merge r l) ps (merge-AreDistinct r l d) (merge-IsSettled r rows l p d h)
