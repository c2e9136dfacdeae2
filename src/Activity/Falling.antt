-- ===== src/Activity/Falling.antt =====
-- The order of what a query selects, where no two rows of an account have one time.
use miniwallet.Base.{
  ℕ, ◌≡◌, ◌≢◌, ◌<◌, sym, ◌∙◌, inl, inr, List, [], ◌∷◌, map, filter, ltb, if_intro, All, Bool-cases,
  arith,
}
use miniwallet.Activity.{TransactionActivity}
use miniwallet.Activity.History.{
  TransactionItem, Query, matches, insert_by_occurred, newest_first, to_item,
}
use miniwallet.Activity.Asked.{matches-IsAsked}

-- No two rows of one account have one time.
abbrev pub AreApart : List TransactionActivity → Type 0
AreApart [] = Unit
AreApart (r ∷ l) =
    All (λ (x : TransactionActivity). x.account_id ≡ r.account_id → x.occurred_at ≢ r.occurred_at) l
    × AreApart l

-- Newest first, and no time twice.
abbrev pub IsFalling : List TransactionItem → Type 0
IsFalling [] = Unit
IsFalling (r ∷ l) = All (λ (x : TransactionItem). x.created_at < r.created_at) l × IsFalling l

abbrev FallsBelow : ℕ → List TransactionActivity → Type 0
FallsBelow t l = All (λ (x : TransactionActivity). x.occurred_at < t) l

abbrev pub Falls : List TransactionActivity → Type 0
Falls [] = Unit
Falls (r ∷ l) = FallsBelow r.occurred_at l × Falls l

abbrev Misses : ℕ → List TransactionActivity → Type 0
Misses t l = All (λ (x : TransactionActivity). x.occurred_at ≢ t) l

insert-FallsBelow :
    (t : ℕ) (r : TransactionActivity) (l : List TransactionActivity)
    → r.occurred_at < t
    → FallsBelow t l
    → FallsBelow t (insert_by_occurred r l)
insert-FallsBelow t r [] h a = (h, tt)
insert-FallsBelow t r (x ∷ l) h (a, rest) =
    if_intro (FallsBelow t) (ltb r.occurred_at x.occurred_at) _ _
      (λ _. (a, insert-FallsBelow t r l h rest)) (λ _. (h, (a, rest)))

below_less : (t u : ℕ) (l : List TransactionActivity) → t < u → FallsBelow t l → FallsBelow u l
below_less t u [] h a = tt
below_less t u (x ∷ l) h (a, rest) = (ground (arith, a, h), below_less t u l h rest)

insert-Falls :
    (r : TransactionActivity) (l : List TransactionActivity)
    → Misses r.occurred_at l
    → Falls l
    → Falls (insert_by_occurred r l)
insert-Falls r [] m h = (tt, tt)
insert-Falls r (x ∷ l) (ne, m) (a, rest) =
    if_intro Falls (ltb r.occurred_at x.occurred_at) _ _
      (λ p. (insert-FallsBelow x.occurred_at r l (ground (arith, p)) a, insert-Falls r l m rest))
      (λ p.
        let lt : x.occurred_at < r.occurred_at = ground (arith, p, ne) in
        ((lt, below_less x.occurred_at r.occurred_at l lt a), (a, rest)))

insert-Misses :
    (t : ℕ) (r : TransactionActivity) (l : List TransactionActivity)
    → r.occurred_at ≢ t
    → Misses t l
    → Misses t (insert_by_occurred r l)
insert-Misses t r [] h a = (h, tt)
insert-Misses t r (x ∷ l) h (a, rest) =
    if_intro (Misses t) (ltb r.occurred_at x.occurred_at) _ _ (λ _. (a, insert-Misses t r l h rest))
      (λ _. (h, (a, rest)))

sort-Misses : (t : ℕ) (l : List TransactionActivity) → Misses t l → Misses t (newest_first l)
sort-Misses t [] h = tt
sort-Misses t (r ∷ l) (h, rest) = insert-Misses t r (newest_first l) h (sort-Misses t l rest)

filter-Misses :
    (q : Query) (r : TransactionActivity) (l : List TransactionActivity)
    → r.account_id ≡ q.account_id
    → All
        (λ (x : TransactionActivity). x.account_id ≡ r.account_id → x.occurred_at ≢ r.occurred_at)
        l
    → Misses r.occurred_at (filter (matches q) l)
filter-Misses q r [] own h = tt
filter-Misses q r (x ∷ l) own (h, hs) = elim (Bool-cases (matches q x)) [
  | inl m ↦ rw m (h ((matches-IsAsked q x m).account ∙ sym own), filter-Misses q r l own hs)
  | inr m ↦ rw m (filter-Misses q r l own hs)
]

pub selected-Falls :
    (q : Query) (l : List TransactionActivity)
    → AreApart l
    → Falls (newest_first (filter (matches q) l))
selected-Falls q [] h = tt
selected-Falls q (r ∷ l) (h, hs) = elim (Bool-cases (matches q r)) [
  | inl m ↦ rw m (
      insert-Falls r (newest_first (filter (matches q) l))
        (sort-Misses r.occurred_at _ (filter-Misses q r l (matches-IsAsked q r m).account h))
        (selected-Falls q l hs))
  | inr m ↦ rw m (selected-Falls q l hs)
]

items_below :
    (t : ℕ) (l : List TransactionActivity)
    → FallsBelow t l
    → All (λ (x : TransactionItem). x.created_at < t) (map to_item l)
items_below t [] h = tt
items_below t (x ∷ l) (h, hs) = (h, items_below t l hs)

pub items_fall : (l : List TransactionActivity) → Falls l → IsFalling (map to_item l)
items_fall [] h = tt
items_fall (r ∷ l) (h, hs) = (items_below r.occurred_at l h, items_fall l hs)
