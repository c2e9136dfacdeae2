-- ===== src/Activity/Coverage.antt =====
-- The pages of an account's activity against what was asked for, row by row.
use miniwallet.Base.{
  ℕ, ◌*◌, ◌≡◌, ◌≤◌, refl, inl, inr, List, [], ◌∷◌, map, filter, ltb, if_intro, All, IsOneOf,
  IsOneOf-filter, Bool-cases,
}
use miniwallet.Activity.{TransactionActivity}
use miniwallet.Activity.History.{
  TransactionItem, Query, matches, insert_by_occurred, newest_first, selected, to_item,
  get_transactions,
}
use miniwallet.Activity.Pages.{pages, pages_cover}
use miniwallet.Activity.Asked.{IsAsked, IsAsked-matches, matches-IsAsked}
use miniwallet.Activity.Falling.{AreApart, IsFalling, selected-Falls, items_fall}

insert-has_new :
    (r : TransactionActivity) (l : List TransactionActivity) → IsOneOf r (insert_by_occurred r l)
insert-has_new r [] = inl refl
insert-has_new r (x ∷ l) =
    if_intro (IsOneOf r) (ltb r.occurred_at x.occurred_at) _ _ (λ _. inr (insert-has_new r l))
      (λ _. inl refl)

insert-has_old :
    (a r : TransactionActivity) (l : List TransactionActivity)
    → IsOneOf a l
    → IsOneOf a (insert_by_occurred r l)
insert-has_old a r [] mem = absurd mem
insert-has_old a r (x ∷ l) (inl e) =
    if_intro (IsOneOf a) (ltb r.occurred_at x.occurred_at) _ _ (λ _. inl e) (λ _. inr (inl e))
insert-has_old a r (x ∷ l) (inr mem) =
    if_intro (IsOneOf a) (ltb r.occurred_at x.occurred_at) _ _ (λ _. inr (insert-has_old a r l mem))
      (λ _. inr (inr mem))

sort-has :
    (a : TransactionActivity) (l : List TransactionActivity)
    → IsOneOf a l
    → IsOneOf a (newest_first l)
sort-has a [] mem = absurd mem
sort-has a (r ∷ l) (inl e) = rw e (insert-has_new r (newest_first l))
sort-has a (r ∷ l) (inr mem) = insert-has_old a r (newest_first l) (sort-has a l mem)

map-has :
    (a : TransactionActivity) (l : List TransactionActivity)
    → IsOneOf a l
    → IsOneOf (to_item a) (map to_item l)
map-has a [] mem = absurd mem
map-has a (x ∷ l) (inl e) = inl (rw e refl)
map-has a (x ∷ l) (inr mem) = inr (map-has a l mem)

-- The item shows a row of the table that was asked for.
abbrev pub IsShown : Query → List TransactionActivity → TransactionItem → Type 0
IsShown q table i = (r : TransactionActivity) × IsOneOf r table × IsAsked q r × (i ≡ to_item r)

abbrev IsPicked : Query → List TransactionActivity → TransactionActivity → Type 0
IsPicked q table r = IsOneOf r table × IsAsked q r

insert-All :
    (P : TransactionActivity → Type 0) (r : TransactionActivity) (l : List TransactionActivity)
    → P r
    → All P l
    → All P (insert_by_occurred r l)
insert-All P r [] h a = (h, tt)
insert-All P r (x ∷ l) h (a, rest) =
    if_intro (All P) (ltb r.occurred_at x.occurred_at) _ _ (λ _. (a, insert-All P r l h rest))
      (λ _. (h, (a, rest)))

picked :
    (q : Query) (table l : List TransactionActivity)
    → ((r : TransactionActivity) → IsOneOf r l → IsOneOf r table)
    → All (IsPicked q table) (newest_first (filter (matches q) l))
picked q table [] sub = tt
picked q table (r ∷ l) sub =
    let rest = picked q table l (λ a mem. sub a (inr mem)) in
    elim (Bool-cases (matches q r)) [
      | inl m ↦
          rw m (insert-All (IsPicked q table) r _ (sub r (inl refl), matches-IsAsked q r m) rest)
      | inr m ↦ rw m rest
    ]

items-IsShown :
    (q : Query) (table l : List TransactionActivity)
    → All (IsPicked q table) l
    → All (IsShown q table) (map to_item l)
items-IsShown q table [] h = tt
items-IsShown q table (r ∷ l) ((mem, asked), hs) =
    ((r, mem, asked, refl), items-IsShown q table l hs)

-- Where no two rows of one account have one time: as soon as the number of pages times the limit
-- reaches the total that each answer reports, the pages one after the other have every row that was
-- asked for, by account, dates and type, and nothing else, from the newest to the oldest with no row
-- twice.
pub pages_show_asked :
    (n limit : ℕ) (q : Query) (table : List TransactionActivity) (r : TransactionActivity)
    → AreApart table
    → (get_transactions 1 limit q table).1 ≤ n * limit
    → IsOneOf r table
    → IsAsked q r
    → let items = pages n limit q table in
      IsOneOf (to_item r) items × All (IsShown q table) items × IsFalling items
unfolding selected
pages_show_asked n limit q table r apart enough mem asked =
    rw (pages_cover n limit q table enough) (
      map-has r _
          (sort-has r _ (IsOneOf-filter (matches q) r table mem (IsAsked-matches q r asked))),
      items-IsShown q table _ (picked q table table (λ a m. m)),
      items_fall _ (selected-Falls q table apart),
    )
