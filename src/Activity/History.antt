-- ===== src/Activity/History.antt =====
-- `get_transactions` of app/services/account_service.py: a page of an account's activity.
use miniwallet.Base.{
  ℕ, ◌-◌, ◌*◌, String, Bool, true, Option, none, some, List, [], ◌∷◌, map, filter, take, drop,
  length, ltb, leb, ◌==◌, ◌&&◌, str_eq, if◌then◌else◌,
}
use miniwallet.Base.Int.{ℤ}
use miniwallet.Models.{Direction}
use miniwallet.Activity.{TransactionActivity}

-- app/schemas/account.py: without entry_id, the row's drawn primary key.
pub record TransactionItem : Type 0 where
  pub direction : Direction
  pub amount : ℤ
  pub currency : String
  pub entry_type : String
  pub reference_id : Option ℕ
  pub created_at : ℕ

-- The arguments that select rows.
pub record Query : Type 0 where
  pub account_id : ℕ
  pub from_date : Option ℕ
  pub to_date : Option ℕ
  pub entry_type : Option String

abbrev pub not_before : Option ℕ → ℕ → Bool
not_before none t = true
not_before (some d) t = leb d t

abbrev pub not_after : Option ℕ → ℕ → Bool
not_after none t = true
not_after (some d) t = leb t d

-- `if entry_type:` holds of a text that is not empty.
abbrev pub of_type : Option String → String → Bool
of_type none t = true
of_type (some e) t = if str_eq e "" then true else str_eq t e

-- The WHERE clause.
unfoldable pub matches : Query → TransactionActivity → Bool
matches q r =
    r.account_id == q.account_id
    && not_before q.from_date r.occurred_at
    && not_after q.to_date r.occurred_at
    && of_type q.entry_type r.entry_type

abbrev pub insert_by_occurred :
    TransactionActivity → List TransactionActivity → List TransactionActivity
insert_by_occurred r [] = r ∷ []
insert_by_occurred r (x ∷ xs) =
    let rest = insert_by_occurred r xs in
    if ltb r.occurred_at x.occurred_at then x ∷ rest else r ∷ x ∷ xs

-- ORDER BY occurred_at DESC. PostgreSQL leaves the order of rows of one time open, in each query
-- anew; here they stay in the table's order.
abbrev pub newest_first : List TransactionActivity → List TransactionActivity
newest_first [] = []
newest_first (r ∷ l) = insert_by_occurred r (newest_first l)

-- The rows that match, in order.
unfoldable pub selected : Query → List TransactionActivity → List TransactionActivity
unfolding matches
selected q table = newest_first (filter (matches q) table)

-- OFFSET (page - 1) * limit LIMIT limit
unfoldable pub page_rows : ℕ → ℕ → Query → List TransactionActivity → List TransactionActivity
page_rows page limit q table = take limit (drop ((page - 1) * limit) (selected q table))

abbrev larger : ℕ → Option ℕ → Option ℕ
larger t none = some t
larger t (some u) = if ltb t u then some u else some t

-- `max((r.occurred_at for r in rows), default=None)`
abbrev pub latest : List TransactionActivity → Option ℕ
latest [] = none
latest (r ∷ l) = larger r.occurred_at (latest l)

abbrev pub to_item : TransactionActivity → TransactionItem
to_item row = record {
  direction = row.direction;
  amount = row.amount;
  currency = row.currency;
  entry_type = row.entry_type;
  reference_id = row.reference_id;
  created_at = row.occurred_at;
}

-- `get_transactions`
unfoldable pub get_transactions :
    ℕ → ℕ → Query → List TransactionActivity → List TransactionItem × ℕ × Option ℕ
unfolding page_rows selected
get_transactions page limit q table =
    let rows = page_rows page limit q table in
    (map to_item rows, length (filter (matches q) table), latest rows)
