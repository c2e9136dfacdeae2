-- ===== src/App.antt =====
-- The application: the endpoints that `create_app` (app/main.py) routes to, over one state. A call
-- has its bearer's token, if any, and what its run draws. GET /v1/health, which asks the connections
-- themselves, is in Api.Health.
pub mod Guards
pub mod Laws
use miniwallet.Base.{ℕ, String, Option, none, some, List, str_eq, if◌then◌else◌}
use miniwallet.Errors.{Result, ok, raise}
use miniwallet.Models.{User}
use miniwallet.Db.{Db, Env}
use miniwallet.Schemas.{HashInput, Session, TransferResponse, DepositResponse, WithdrawalResponse}
use miniwallet.Accounts.{SeedResponse}
use miniwallet.Activity.{TransactionActivity}
use miniwallet.Auth.{
  Security, Tokens, TokenResponse, Draw, register, login, refresh_token, get_current_user,
}
use miniwallet.Withdrawals.{World}
use miniwallet.Withdrawals.Steps.{Draws as SagaDraws}
use miniwallet.Api.{
  Reply, fails, respond, Validation, accepts, ◌and◌, validated, authenticated, Texts,
}
use miniwallet.Api.Bodies.{
  TransferRequest, SeedRequest, WithdrawalRequest, SimulateDepositRequest, ScheduledPaymentRequest,
  RegisterRequest, validate_amount, validate_password, validate_withdrawal, validate_deposit,
  validate_payment, required,
}
use miniwallet.Api.Accounts.{
  AccountResponse, AccountSummaryResponse, BalanceResponse, UserResponse, Paging, PaginatedResponse,
  validate_paging, open_account, get_account, get_balance_response, get_transactions_page,
  user_response,
}
use miniwallet.Api.Transfers.{create_transfer, get_transfer}
use miniwallet.Api.Withdrawals.{create_withdrawal, get_withdrawal}
use miniwallet.Api.Dev.{seed, simulate_deposit, get_deposit}
use miniwallet.Api.Payments.{ScheduledPaymentResponse, post_payment, list_payments, delete_payment}

-- The libraries and the environment.
pub record Setting : Type 0 where
  pub sha256 : HashInput → String
  pub security : Security
  pub texts : Texts
  pub app_env : String

-- What one call draws.
pub record Draws : Type 0 where
  pub now : ℕ
  pub env : Env
  pub saga : SagaDraws
  pub tokens : Draw

-- The database with Redis and the rail, the refresh tokens in Redis, and the read model's table.
pub record Server : Type 0 where
  pub world : World
  pub tokens : Tokens
  pub activity : List TransactionActivity

-- The endpoints with their bodies, path and query parameters, and headers.
pub data Call : Type 0 where
  post_register post_login : RegisterRequest → Call
  post_refresh : String → Call
  get_me post_account get_my_account get_my_balance list_scheduled_payments : Call
  get_my_transactions : Paging → Call
  post_transfer : TransferRequest → Option String → Call
  post_withdrawal : WithdrawalRequest → Option String → Call
  post_seed : SeedRequest → Option String → Call
  post_simulate_deposit : SimulateDepositRequest → Call
  get_transfer_by_id get_withdrawal_by_id get_deposit_by_id : String → Call
  post_scheduled_payment : ScheduledPaymentRequest → Call
  delete_scheduled_payment : String → Call

-- The data of an answer.
pub data Answer : Type 0 where
  user : UserResponse → Answer
  tokens : TokenResponse → Answer
  account : AccountResponse → Answer
  summary : AccountSummaryResponse → Answer
  balance : BalanceResponse → Answer
  transactions : PaginatedResponse → Answer
  transfer : TransferResponse → Answer
  withdrawal : WithdrawalResponse → Answer
  seeded : SeedResponse → Answer
  deposit : DepositResponse → Answer
  payment : ScheduledPaymentResponse → Answer
  payments : List ScheduledPaymentResponse → Answer
  no_content : Answer

abbrev pub wrap {ℓ} : {A : Type ℓ} → (A → Answer) → Result A → Result Answer
wrap f (ok a) = ok (f a)
wrap f (raise e) = raise e

abbrev pub set_db : Db → Server → Server
set_db db' s = record s { world = record s.world { db = db' } }

-- An endpoint that only reads.
abbrev pub reads {ℓ} : {A : Type ℓ} → (A → Answer) → Server → Result A → Reply Answer × Server
reads f s res = (respond 200 (wrap f res), s)

-- One that writes the database.
abbrev pub writes {ℓ} :
    {A : Type ℓ} → ℕ → (A → Answer) → Server → Result A × Db → Reply Answer × Server
writes status f s (res, db') = (respond status (wrap f res), set_db db' s)

abbrev pub writes_tokens : Server → Result TokenResponse × Tokens → Reply Answer × Server
writes_tokens s (res, t) = (respond 200 (wrap tokens res), record s { tokens = t })

abbrev pub writes_session : Server → Result TransferResponse × Session → Reply Answer × Server
writes_session s (res, s') = (
  respond 201 (wrap transfer res),
  record s { world = record s.world { db = s'.db; cache = s'.cache } },
)

abbrev pub writes_world : Server → Result WithdrawalResponse × World → Reply Answer × Server
writes_world s (res, w) = (respond 201 (wrap withdrawal res), record s { world = w })

-- The text of a header; a call without it is not valid.
abbrev pub or_empty : Option String → String
or_empty none = ""
or_empty (some k) = k

abbrev pub session_of : Server → Session
session_of s = record { db = s.world.db; cache = s.world.cache }

-- The endpoints for the caller that `get_current_user` found.
abbrev pub run : Setting → Draws → Server → Call → User → Reply Answer × Server
run c d s get_me u = reads user s (ok (user_response u))
run c d s post_account u = writes 201 account s (open_account d.env u s.world.db)
run c d s get_my_account u = reads summary s (get_account u s.world.db)
run c d s get_my_balance u = reads balance s (get_balance_response d.now u s.world.db)
run c d s (get_my_transactions p) u =
    validated (validate_paging p) s
      (reads transactions s (get_transactions_page p u s.world.db s.activity))
run c d s (post_transfer body key) u =
    validated (required key and validate_amount c.texts body.amount) s (
      writes_session s
        (create_transfer c.sha256 c.texts d.env body (or_empty key) u (session_of s)))
run c d s (post_withdrawal body key) u =
    validated (required key and validate_withdrawal c.texts body) s (
      writes_world s
        (create_withdrawal c.sha256 c.texts d.now d.saga body (or_empty key) u s.world))
run c d s (post_seed body key) u =
    validated (required key and validate_amount c.texts body.amount) s
      (writes 201 seeded s (seed c.texts c.app_env d.env body (or_empty key) u s.world.db))
run c d s (get_transfer_by_id i) u = reads transfer s (get_transfer c.texts i u s.world.db)
run c d s (get_withdrawal_by_id i) u = reads withdrawal s (get_withdrawal c.texts i u s.world.db)
run c d s (get_deposit_by_id i) u = reads deposit s (get_deposit c.texts i u s.world.db)
run c d s (post_scheduled_payment body) u =
    validated (validate_payment c.texts body) s
      (writes 201 payment s (post_payment c.texts body u s.world.db))
run c d s list_scheduled_payments u = writes 200 payments s (list_payments u s.world.db)
run c d s (delete_scheduled_payment i) u =
    writes 204 (λ _. no_content) s (delete_payment c.texts i u s.world.db)
run c d s _ u = (fails 404 "NOT_FOUND", s)

-- One call: four endpoints are open to everyone, the others want a caller.
unfoldable pub handle : Setting → Draws → Option String → Call → Server → Reply Answer × Server
handle c d bearer (post_register body) s = validated (validate_password body.password) s (
    writes 201 (λ u. user (user_response u)) s
      (register c.security d.env body.email body.password s.world.db))
handle c d bearer (post_login body) s =
    writes_tokens s (login c.security d.tokens body.email body.password s.world.db s.tokens)
handle c d bearer (post_refresh token) s =
    writes_tokens s (refresh_token c.security d.tokens token s.tokens)
handle c d bearer (post_simulate_deposit body) s =
    validated (validate_deposit c.texts body) s
      (writes 201 deposit s (simulate_deposit c.texts c.app_env d.env body s.world.db))
handle c d bearer call s =
    authenticated (get_current_user c.security d.now bearer s.world.db) s (run c d s call)
