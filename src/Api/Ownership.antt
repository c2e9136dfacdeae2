-- ===== src/Api/Ownership.antt =====
-- What a caller can reach through the endpoints, and what they answer where they refuse.
use miniwallet.Base.{
  ℕ, ◌≡◌, ◌≢◌, inl, inr, refl, sym, ◌∙◌, String, Bool, false, some, str_eq, arith,
}
use miniwallet.Base.Int.{◌≤ℤ◌, int_laws}
use miniwallet.Errors.{Result, ok, raise, forbidden, bank_rail_unavailable, redis_error}
use miniwallet.Models.{User, Account}
use miniwallet.Db.{Db, Env}
use miniwallet.Ledger.{get_balance}
use miniwallet.Schemas.{HashInput, Session}
use miniwallet.Accounts.{find_account_by_user}
use miniwallet.Circuit.{Circuit, default_config, is_call_allowed}
use miniwallet.Withdrawals.{World}
use miniwallet.Withdrawals.Steps.{Draws}
use miniwallet.Transfers.{Request, transfer}
use miniwallet.Transfers.Effects.{transfer-ledger}
use miniwallet.Api.{Texts}
use miniwallet.Api.Bodies.{TransferRequest, SeedRequest, WithdrawalRequest, SimulateDepositRequest}
use miniwallet.Api.Transfers.{transferred, transfer_request, create_transfer}
use miniwallet.Api.Withdrawals.{create_withdrawal}
use miniwallet.Api.Dev.{seed, simulate_deposit}
use miniwallet.Api.Payments.{delete_payment, cancel_scheduled_payment}
use miniwallet.Api.Health.{health}

-- A transfer takes nothing from an account that is not its sender's.
transfer_spares :
    (sha256 : HashInput → String) (env : Env) (r : Request) (s : Session) (a : ℕ)
    → r.from_account_id ≢ a
    → get_balance s.db a ≤ℤ get_balance (transfer sha256 env r s).1.db a
unfolding get_balance
transfer_spares sha256 env r s a ne = elim (transfer-ledger sha256 env r s) [
  | inl same ↦ rw same (ground arith)
  | inr m ↦ rw m.legs (let p = m.positive in grind (int_laws, ne, p))
]

-- The sender of the call is the caller's account.
request_sender :
    (texts : Texts) (body : TransferRequest) (key : String) (u : User) (db : Db) {b : Account}
    {r : Request}
    → find_account_by_user u.id db ≡ some b
    → transfer_request texts body key u db ≡ ok r
    → r.from_account_id ≡ b.id
unfolding transfer_request
request_sender texts body key u db found h = ground arith

transferred_spares :
    (sha256 : HashInput → String) (env : Env) (s : Session) (x : Result Request) (a i : ℕ)
    → ((r : Request) → x ≡ ok r → r.from_account_id ≡ i)
    → i ≢ a
    → get_balance s.db a ≤ℤ get_balance (transferred sha256 env s x).1.db a
transferred_spares sha256 env s (raise e) a i from ne = ground arith
transferred_spares sha256 env s (ok r) a i from ne =
    transfer_spares sha256 env r s a (λ e. ne (sym (from r refl) ∙ e))

-- Whatever a caller asks of POST /v1/transfers, it lowers the balance of no account but the
-- caller's own.
pub transfer_spends_own :
    (sha256 : HashInput → String) (texts : Texts) (env : Env) (body : TransferRequest)
    (key : String) (u : User) (s : Session) (a : ℕ) {b : Account}
    → find_account_by_user u.id s.db ≡ some b
    → b.id ≢ a
    → get_balance s.db a ≤ℤ get_balance (create_transfer sha256 texts env body key u s).1.db a
unfolding create_transfer
transfer_spends_own sha256 texts env body key u s a {b} found ne =
    transferred_spares sha256 env s _ a b.id (λ r e. request_sender texts body key u s.db found e)
      ne

-- While the circuit breaker lets no call through, POST /v1/withdrawals answers
-- BankRailUnavailableError and changes nothing: no money is reserved, no row and no event is
-- written, and no answer is cached, also for a key whose answer is in the cache.
pub withdrawal_preflight :
    (sha256 : HashInput → String) (texts : Texts) (now : ℕ) (d : Draws) (body : WithdrawalRequest)
    (key : String) (u : User) (s : World)
    → is_call_allowed default_config now s.circuit ≡ false
    → create_withdrawal sha256 texts now d body key u s ≡ (raise bank_rail_unavailable, s)
unfolding create_withdrawal
withdrawal_preflight sha256 texts now d body key u s h = rw h refl

-- Outside the development environment the two endpoints that make money, the seed and the
-- simulated deposit, are forbidden and leave the database as it is.
pub dev_forbidden :
    (texts : Texts) (app_env : String) (env : Env) (body : SeedRequest)
    (webhook : SimulateDepositRequest) (key : String) (u : User) (db : Db)
    → str_eq app_env "development" ≡ false
    → (seed texts app_env env body key u db ≡ (raise forbidden, db))
      × (simulate_deposit texts app_env env webhook db ≡ (raise forbidden, db))
unfolding seed simulate_deposit
dev_forbidden texts app_env env body webhook key u db h = rw h (refl, refl)

-- GET /v1/health raises where Redis does not answer, whatever the database does: the status of the
-- circuit breaker is read from Redis, so that no answer is ever "degraded" on account of Redis.
pub health_redis_down : (db_ok : Bool) (c : Circuit) → health db_ok false c ≡ raise redis_error
unfolding health
health_redis_down db_ok c = refl

-- DELETE /v1/scheduled-payments/{id} succeeds for every caller that has an account and for every
-- UUID, one that names no payment or another's included, and changes nothing.
pub delete_payment_does_nothing :
    (texts : Texts) (payment_id : String) (u : User) (db : Db) {b : Account} {i : ℕ}
    → find_account_by_user u.id db ≡ some b
    → texts.parse_uuid payment_id ≡ some i
    → delete_payment texts payment_id u db ≡ (ok tt, db)
unfolding delete_payment cancel_scheduled_payment
delete_payment_does_nothing texts payment_id u db found parsed = rw (found, parsed) refl
