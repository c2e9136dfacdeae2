-- ===== src/Api/Reach.antt =====
-- Each handler as steps of the service: from a database that the service can reach it leaves one.
use miniwallet.Base.{ℕ, ◌≡◌, refl, String, Option, none, some, not, str_eq, if_intro}
use miniwallet.Errors.{Result, ok, raise}
use miniwallet.Models.{User, Account, Withdrawal}
use miniwallet.Db.{Db, Env, insert_user}
use miniwallet.Schemas.{HashInput, Cached, Session, DepositResponse, WithdrawalResponse}
use miniwallet.System.{
  registers, opens, seeds, transfers, deposits, reserves, submits, completes, refunds, Reach, steps,
}
use miniwallet.Auth.{Security, user_row, registered, with_hash, register}
use miniwallet.Circuit.{Config, default_config, is_call_allowed}
use miniwallet.Withdrawals.{
  Request, World, Reservation, reserved, ended, reserve, submit, set_submitted,
}
use miniwallet.Withdrawals.Steps.{Draws, create_withdrawal as run_saga, proceed, by_cache}
use miniwallet.Withdrawals.Conclusion.{
  Conclusion, completes as concludes, refunds as gives_back, raises, continue-Conclusion,
}
use miniwallet.Transfers.{Request as TransferRequest}
use miniwallet.Base.Int.{ℤ}
use miniwallet.Accounts.{SeedResponse}
use miniwallet.Deposits.{Webhook}
use miniwallet.Api.{Texts}
use miniwallet.Api.Bodies.{
  TransferRequest as TransferBody, SeedRequest, WithdrawalRequest, SimulateDepositRequest,
  ScheduledPaymentRequest,
}
use miniwallet.Api.Accounts.{account_response, open_account}
use miniwallet.Api.Transfers.{transferred, create_transfer}
use miniwallet.Api.Withdrawals.{withdrawn, create_withdrawal}
use miniwallet.Api.Dev.{seeded, seed, deposited, simulate_deposit}
use miniwallet.Api.Payments.{
  post_payment, list_payments, delete_payment, create_scheduled_payment, list_scheduled_payments,
  cancel_scheduled_payment, created, listed, cancelled,
}

-- The endpoints of scheduled payments leave the database as it is.
created-db :
    (body : ScheduledPaymentRequest) (db : Db) (x : Result (ℕ × ℕ × ℤ)) → (created body db x).1 ≡ db
unfolding create_scheduled_payment
created-db body db (raise e) = refl
created-db body db (ok (sender, target, amount)) = refl

post_payment-db :
    (texts : Texts) (body : ScheduledPaymentRequest) (u : User) (db : Db)
    → (post_payment texts body u db).1 ≡ db
unfolding post_payment
post_payment-db texts body u db = created-db body db _

listed-db : (db : Db) (x : Result ℕ) → (listed db x).1 ≡ db
unfolding list_scheduled_payments
listed-db db (raise e) = refl
listed-db db (ok i) = refl

list_payments-db : (u : User) (db : Db) → (list_payments u db).1 ≡ db
unfolding list_payments
list_payments-db u db = listed-db db _

cancelled-db : (db : Db) (x : Result (ℕ × ℕ)) → (cancelled db x).1 ≡ db
unfolding cancel_scheduled_payment
cancelled-db db (raise e) = refl
cancelled-db db (ok (sender, i)) = refl

delete_payment-db :
    (texts : Texts) (i : String) (u : User) (db : Db) → (delete_payment texts i u db).1 ≡ db
unfolding delete_payment
delete_payment-db texts i u db = cancelled-db db _

module _ (sha256 : HashInput → String) where
  registered-Reach :
      (u : User) (db : Db) (x : Result Db)
      → insert_user u db ≡ x
      → Reach sha256 db
      → Reach sha256 (registered u db x).1
  registered-Reach u db (ok db') e h = steps h (registers u e)
  registered-Reach u db (raise err) e h = h

  with_hash-Reach :
      (env : Env) (email : String) (db : Db) (o : Option String)
      → Reach sha256 db
      → Reach sha256 (with_hash env email db o).1
  with_hash-Reach env email db none h = h
  with_hash-Reach env email db (some hashed) h =
      registered-Reach (user_row env email hashed) db _ refl h

  pub register-Reach :
      (lib : Security) (env : Env) (email password : String) (db : Db)
      → Reach sha256 db
      → Reach sha256 (register lib env email password db).1
  unfolding register
  register-Reach lib env email password db h = with_hash-Reach env email db _ h

  account_response-Reach :
      (p : Result Account × Db) → Reach sha256 p.1 → Reach sha256 (account_response p).1
  account_response-Reach (ok a, db) h = h
  account_response-Reach (raise e, db) h = h

  pub open_account-Reach :
      (env : Env) (u : User) (db : Db) → Reach sha256 db → Reach sha256 (open_account env u db).1
  unfolding open_account
  open_account-Reach env u db h = account_response-Reach _ (steps h (opens env u.id))

  transferred-Reach :
      (env : Env) (s : Session) (x : Result TransferRequest)
      → Reach sha256 s.db
      → Reach sha256 (transferred sha256 env s x).1.db
  transferred-Reach env s (raise e) h = h
  transferred-Reach env s (ok r) h = steps h (transfers env r s.cache)

  pub create_transfer-Reach :
      (texts : Texts) (env : Env) (body : TransferBody) (key : String) (u : User) (s : Session)
      → Reach sha256 s.db
      → Reach sha256 (create_transfer sha256 texts env body key u s).1.db
  unfolding create_transfer
  create_transfer-Reach texts env body key u s h = transferred-Reach env s _ h

  seeded-Reach :
      (env : Env) (key : String) (u : User) (db : Db) (x : Result (ℕ × ℤ))
      → Reach sha256 db
      → Reach sha256 (seeded env key u db x).1
  seeded-Reach env key u db (raise e) h = h
  seeded-Reach env key u db (ok (i, x)) h = steps h (seeds env i x key u.id)

  pub seed-Reach :
      (texts : Texts) (app_env : String) (env : Env) (body : SeedRequest) (key : String) (u : User)
      (db : Db)
      → Reach sha256 db
      → Reach sha256 (seed texts app_env env body key u db).1
  unfolding seed
  seed-Reach texts app_env env body key u db h =
      if_intro (λ (p : Result SeedResponse × Db). Reach sha256 p.1)
        (not (str_eq app_env "development")) _ _ (λ _. h) (λ _. seeded-Reach env key u db _ h)

  deposited-Reach :
      (env : Env) (db : Db) (x : Result Webhook)
      → Reach sha256 db
      → Reach sha256 (deposited env db x).1
  deposited-Reach env db (raise e) h = h
  deposited-Reach env db (ok w) h = steps h (deposits env w)

  pub simulate_deposit-Reach :
      (texts : Texts) (app_env : String) (env : Env) (body : SimulateDepositRequest) (db : Db)
      → Reach sha256 db
      → Reach sha256 (simulate_deposit texts app_env env body db).1
  unfolding simulate_deposit
  simulate_deposit-Reach texts app_env env body db h =
      if_intro (λ (p : Result DepositResponse × Db). Reach sha256 p.1)
        (not (str_eq app_env "development")) _ _ (λ _. h) (λ _. deposited-Reach env db _ h)

  -- A run of the saga: its transactions one after the other.
  Conclusion-Reach :
      (d : Draws) (w : Withdrawal) (actor : Option ℕ) (db : Db)
      (p : Result WithdrawalResponse × World)
      → Conclusion d w actor db p
      → Reach sha256 db
      → Reach sha256 p.1.db
  Conclusion-Reach d w actor db p (concludes reference _ e) h =
      rw e (steps h (completes d.tx3 w reference actor))
  Conclusion-Reach d w actor db p (gives_back code _ e) h = steps h (refunds d.tx3 w code actor e)
  Conclusion-Reach d w actor db p (raises _ _ _ e _) h = rw e h

  proceed-Reach :
      (breaker : Option Config) (d : Draws) (r : Request) (s : World) (x : Reservation)
      → reserve d.tx1 r s.db ≡ x
      → Reach sha256 s.db
      → Reach sha256 (proceed sha256 breaker d r s x).1.db
  proceed-Reach breaker d r s (ended res) e h = h
  proceed-Reach breaker d r s (reserved w db') e h =
      Conclusion-Reach d (set_submitted d.submitted_at w) r.actor_user_id
        (submit d.submitted_at w db') _
        (continue-Conclusion sha256 breaker d r w (record s { db = db' }))
        (steps (steps h (reserves d.tx1 r e)) (submits d.submitted_at w))

  by_cache-Reach :
      (breaker : Option Config) (d : Draws) (r : Request) (s : World) (o : Option Cached)
      → Reach sha256 s.db
      → Reach sha256 (by_cache sha256 breaker d r s o).1.db
  by_cache-Reach breaker d r s none h = proceed-Reach breaker d r s _ refl h
  by_cache-Reach breaker d r s (some c) h =
      if_intro (λ (p : Result WithdrawalResponse × World). Reach sha256 p.1.db) _ _ _ (λ _. h)
        (λ _. h)

  run_saga-Reach :
      (breaker : Option Config) (d : Draws) (r : Request) (s : World)
      → Reach sha256 s.db
      → Reach sha256 (run_saga sha256 breaker d r s).1.db
  unfolding run_saga
  run_saga-Reach breaker d r s h = by_cache-Reach breaker d r s _ h

  withdrawn-Reach :
      (d : Draws) (s : World) (x : Result Request)
      → Reach sha256 s.db
      → Reach sha256 (withdrawn sha256 d s x).1.db
  withdrawn-Reach d s (raise e) h = h
  withdrawn-Reach d s (ok r) h = run_saga-Reach (some default_config) d r s h

  pub create_withdrawal-Reach :
      (texts : Texts) (now : ℕ) (d : Draws) (body : WithdrawalRequest) (key : String) (u : User)
      (s : World)
      → Reach sha256 s.db
      → Reach sha256 (create_withdrawal sha256 texts now d body key u s).1.db
  unfolding create_withdrawal
  create_withdrawal-Reach texts now d body key u s h =
      if_intro (λ (p : Result WithdrawalResponse × World). Reach sha256 p.1.db)
        (not (is_call_allowed default_config now s.circuit)) _ _ (λ _. h)
        (λ _. withdrawn-Reach d s _ h)

  pub post_payment-Reach :
      (texts : Texts) (body : ScheduledPaymentRequest) (u : User) (db : Db)
      → Reach sha256 db
      → Reach sha256 (post_payment texts body u db).1
  post_payment-Reach texts body u db h = rw (post_payment-db texts body u db) h

  pub list_payments-Reach :
      (u : User) (db : Db) → Reach sha256 db → Reach sha256 (list_payments u db).1
  list_payments-Reach u db h = rw (list_payments-db u db) h

  pub delete_payment-Reach :
      (texts : Texts) (i : String) (u : User) (db : Db)
      → Reach sha256 db
      → Reach sha256 (delete_payment texts i u db).1
  delete_payment-Reach texts i u db h = rw (delete_payment-db texts i u db) h
