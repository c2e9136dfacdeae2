-- ===== src/Api/Accounts.antt =====
-- app/routers/accounts.py, auth.py and users.py.
use miniwallet.Base.{ℕ, String, Option, List, leb, ◌&&◌, if◌then◌else◌}
use miniwallet.Base.Int.{ℤ}
use miniwallet.Errors.{Result, ok, raise, ◌>>=◌}
use miniwallet.Models.{User, Account}
use miniwallet.Db.{Db, Env}
use miniwallet.Ledger.{get_balance}
use miniwallet.Activity.{TransactionActivity}
use miniwallet.Activity.History.{TransactionItem, Query, get_transactions}
use miniwallet.Api.{Validation, accepts, rejects, caller_account}

-- The balance is the number whose text the source writes with four decimals.
pub record AccountResponse : Type 0 where
  pub account_id : ℕ
  pub user_id : Option ℕ
  pub status : String
  pub balance : ℤ
  pub created_at : ℕ

pub record AccountSummaryResponse : Type 0 where
  pub account_id : ℕ
  pub status : String
  pub balance : ℤ
  pub created_at : ℕ

pub record BalanceResponse : Type 0 where
  pub account_id : ℕ
  pub balance : ℤ
  pub as_of : ℕ

pub record UserResponse : Type 0 where
  pub user_id : ℕ
  pub email : String

abbrev pub account_response : Result Account × Db → Result AccountResponse × Db
account_response (raise e, db) = (raise e, db)
account_response (ok a, db) = (
  ok (record {
    account_id = a.id;
    user_id = a.user_id;
    status = a.status;
    balance = get_balance db a.id;
    created_at = a.created_at;
  }),
  db,
)

-- `open_account`
unfoldable pub open_account : Env → User → Db → Result AccountResponse × Db
open_account env user db = account_response (miniwallet.Accounts.open_account env user.id db)

-- `get_account`
unfoldable pub get_account : User → Db → Result AccountSummaryResponse
get_account user db = do
  account ← caller_account user db
  ok (record {
    account_id = account.id;
    status = account.status;
    balance = get_balance db account.id;
    created_at = account.created_at;
  })

-- `get_balance`
unfoldable pub get_balance_response : ℕ → User → Db → Result BalanceResponse
get_balance_response now user db = do
  account ← caller_account user db
  ok (record { account_id = account.id; balance = get_balance db account.id; as_of = now })

-- The query of `get_transactions`.
pub record Paging : Type 0 where
  pub page : ℕ
  pub limit : ℕ
  pub from_date : Option ℕ
  pub to_date : Option ℕ
  pub entry_type : Option String

-- `Query(1, ge=1)` and `Query(20, ge=1, le=100)`
abbrev pub validate_paging : Paging → Validation
validate_paging p = if leb 1 p.page && leb 1 p.limit && leb p.limit 100 then accepts else rejects

pub record PaginationMeta : Type 0 where
  pub total : ℕ
  pub page : ℕ
  pub limit : ℕ
  pub as_of : Option ℕ

pub record PaginatedResponse : Type 0 where
  pub data_ : List TransactionItem
  pub meta : PaginationMeta

abbrev pub query_of : Paging → ℕ → Query
query_of p account_id = record {
  account_id = account_id;
  from_date = p.from_date;
  to_date = p.to_date;
  entry_type = p.entry_type;
}

abbrev paginated : Paging → List TransactionItem × ℕ × Option ℕ → PaginatedResponse
paginated p (items, total, as_of) = record {
  data_ = items;
  meta = record { total = total; page = p.page; limit = p.limit; as_of = as_of };
}

-- `get_transactions`
unfoldable pub get_transactions_page :
    Paging → User → Db → List TransactionActivity → Result PaginatedResponse
get_transactions_page p user db activity = do
  account ← caller_account user db
  ok (paginated p (get_transactions p.page p.limit (query_of p account.id) activity))

-- The response of `register` and of `get_me`.
abbrev pub user_response : User → UserResponse
user_response u = record { user_id = u.id; email = u.email }
