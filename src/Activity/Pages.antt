-- ===== src/Activity/Pages.antt =====
-- What the pages of `get_transactions` are together.
use native.Mathlib.Numerals.{unary_clauses}
use miniwallet.Base.{
  ℕ, zero, suc, ◌+◌, ◌-◌, ◌*◌, ◌≡◌, refl, ◌∙◌, ap, List, [], ◌∷◌, ◌++◌, map, filter, take, drop,
  length, ltb, if_intro, ◌≤◌, arith,
}
use miniwallet.Activity.{TransactionActivity}
use miniwallet.Activity.History.{
  TransactionItem, Query, matches, insert_by_occurred, newest_first, selected, page_rows, to_item,
  get_transactions,
}

-- The first n pages, one after the other.
abbrev pub pages : ℕ → ℕ → Query → List TransactionActivity → List TransactionItem
pages zero limit q table = []
pages (suc n) limit q table = pages n limit q table ++ (get_transactions (suc n) limit q table).0

take_add {ℓ} : {A : Type ℓ} (m n : ℕ) (l : List A) → take (m + n) l ≡ take m l ++ take n (drop m l)
take_add zero n l = let e : 0 + n ≡ n = omega arith in rw e refl
take_add (suc m) zero [] = simp unary_clauses refl
take_add (suc m) (suc n) [] = simp unary_clauses refl
take_add (suc m) n (x ∷ l) =
    let e : suc m + n ≡ suc (m + n) = omega arith in rw e (ap (λ r. x ∷ r) (take_add m n l))

map_append {ℓ κ} :
    {A : Type ℓ} {B : Type κ} (f : A → B) (k l : List A) → map f (k ++ l) ≡ map f k ++ map f l
map_append f [] l = refl
map_append f (x ∷ k) l = ap (λ r. f x ∷ r) (map_append f k l)

take_all {ℓ} : {A : Type ℓ} (n : ℕ) (l : List A) → length l ≤ n → take n l ≡ l
take_all zero [] h = refl
take_all (suc n) [] h = refl
take_all zero (x ∷ l) h = ground (arith, h)
take_all (suc n) (x ∷ l) h = ap (λ r. x ∷ r) (take_all n l (omega arith))

pages-take :
    (n limit : ℕ) (q : Query) (table : List TransactionActivity)
    → pages n limit q table ≡ map to_item (take (n * limit) (selected q table))
unfolding get_transactions page_rows
pages-take zero limit q table = let e : 0 * limit ≡ 0 = omega arith in rw e refl
pages-take (suc n) limit q table =
    let before : suc n - 1 ≡ n = omega arith in
    let upto : suc n * limit ≡ n * limit + limit = omega arith in
    rw
      (
        before,
        upto,
        pages-take n limit q table,
        take_add (n * limit) limit (selected q table),
        map_append to_item (take (n * limit) (selected q table))
            (take limit (drop (n * limit) (selected q table))),
      )
      refl

length-insert_by_occurred :
    (r : TransactionActivity) (l : List TransactionActivity)
    → length (insert_by_occurred r l) ≡ suc (length l)
length-insert_by_occurred r [] = refl
length-insert_by_occurred r (x ∷ xs) =
    if_intro (λ k. length k ≡ suc (suc (length xs))) (ltb r.occurred_at x.occurred_at) _ _
      (λ _. ap (λ n. suc n) (length-insert_by_occurred r xs)) (λ _. refl)

length-newest_first : (l : List TransactionActivity) → length (newest_first l) ≡ length l
length-newest_first [] = refl
length-newest_first (r ∷ l) =
    length-insert_by_occurred r (newest_first l) ∙ ap (λ n. suc n) (length-newest_first l)

-- Where every query puts rows of one time in the same order, the pages of a query neither lose nor
-- repeat a row: as soon as the number of pages times the limit reaches the total that each answer
-- reports, the pages one after the other are all rows that match, newest first.
pub pages_cover :
    (n limit : ℕ) (q : Query) (table : List TransactionActivity)
    → (get_transactions 1 limit q table).1 ≤ n * limit
    → pages n limit q table ≡ map to_item (selected q table)
unfolding get_transactions selected
pages_cover n limit q table h =
    let enough : length (selected q table) ≤ n * limit =
      rw (length-newest_first (filter (matches q) table)) h in
    rw (pages-take n limit q table, take_all (n * limit) (selected q table) enough) refl
