-- ===== src/Errors.antt =====
-- app/exceptions.py: the domain errors with their HTTP status and code, the database's constraint
-- violations (alembic/versions), and the result of a call that may raise.
pub mod Http
use miniwallet.Base.{String}

-- The constraints of the schema that a write of the program can violate.
pub data Constraint : Type 0 where
  users_email_key uq_one_account_per_user accounts_user_fkey : Constraint
  ledger_amount_check ledger_account_fkey ledger_idempotency_key : Constraint
  transfers_amount_check chk_different_transfer_accounts transfers_account_fkey : Constraint
  transfers_idempotency_key : Constraint
  deposits_amount_check deposits_external_reference_key : Constraint
  withdrawals_amount_check withdrawals_account_fkey withdrawals_idempotency_key : Constraint
  uq_activity_event_account activity_account_fkey audit_events_event_id_key : Constraint

pub data Error : Type 0 where
  email_already_exists invalid_credentials invalid_refresh_token unauthorized : Error
  account_already_exists account_not_found user_not_found transfer_not_found : Error
  insufficient_balance same_account idempotency_conflict idempotency_key_consumed : Error
  missing_idempotency_key forbidden deposit_not_found withdrawal_not_found : Error
  bank_rail_unavailable scheduled_payment_not_found invalid_start_time cannot_pay_self : Error
  -- sqlalchemy.exc.IntegrityError, NoResultFound, and a pydantic.ValidationError
  integrity_error : Constraint → Error
  no_result_found validation_error : Error
  -- ValueError, decimal.InvalidOperation, an attribute of None, and what the database raises on a
  -- text that is no UUID; a connection to Redis that
  -- fails; a RuntimeError
  value_error invalid_operation attribute_error statement_error redis_error : Error
  runtime_error : Error
  -- the HTTPException of routers/transfers.py
  recipient_required : Error

pub data Result {ℓ} (A : Type ℓ) : Type ℓ where
  ok : A → Result A
  raise : Error → Result A

infixl 5 ◌>>=◌ ◌>>◌
abbrev pub ◌>>=◌ {ℓ κ} : {A : Type ℓ} {B : Type κ} → Result A → (A → Result B) → Result B
ok a >>= f = f a
raise e >>= f = raise e

abbrev pub ◌>>◌ {ℓ κ} : {A : Type ℓ} {B : Type κ} → Result A → Result B → Result B
m >> k = m >>= λ _. k
