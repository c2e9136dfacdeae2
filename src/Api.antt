-- ===== src/Api.antt =====
-- What the endpoints of app/routers share: the answer that a result becomes (app/main.py), the
-- caller that `get_current_user` found, and the validation of a request (app/schemas). FastAPI
-- solves the dependencies of an endpoint before it reports an invalid request.
pub mod Accounts
pub mod Bodies
pub mod Dev
pub mod Health
pub mod Ownership
pub mod Payments
pub mod Reach
pub mod Transfers
pub mod Withdrawals
use miniwallet.Base.{ℕ, String, Option, none, some}
use miniwallet.Base.Int.{ℤ}
use miniwallet.Errors.{Result, ok, raise, account_not_found, value_error, invalid_operation}
use miniwallet.Errors.Http.{status_code, error_code}
use miniwallet.Models.{User, Account}
use miniwallet.Db.{Db}
use miniwallet.Accounts.{find_account_by_user}

-- The status with the data, or with the error's code.
pub data Reply {ℓ} (A : Type ℓ) : Type ℓ where
  replies : ℕ → A → Reply A
  fails : ℕ → String → Reply A

-- `_minibank_error_handler`, with the status of the endpoint for its data.
abbrev pub respond {ℓ} : {A : Type ℓ} → ℕ → Result A → Reply A
respond status (ok a) = replies status a
respond status (raise e) = fails (status_code e) (error_code e)

abbrev pub answer {ℓ κ} : {A : Type ℓ} {S : Type κ} → ℕ → Result A × S → Reply A × S
answer status (res, s) = (respond status res, s)

-- What a validator does: ValueError rejects the request, and any other exception leaves it.
pub data Validation : Type 0 where
  accepts rejects crashes : Validation

-- One field after another: all of them are run.
infixr 40 ◌and◌
abbrev pub ◌and◌ : Validation → Validation → Validation
accepts and w = w
crashes and w = crashes
rejects and accepts = rejects
rejects and rejects = rejects
rejects and crashes = crashes

-- `_validation_error_handler`: the endpoint runs if the request is valid.
abbrev pub validated {ℓ κ} : {A : Type ℓ} {S : Type κ} → Validation → S → Reply A × S → Reply A × S
validated accepts s run = run
validated rejects s run = (fails 422 "VALIDATION_ERROR", s)
validated crashes s run = (fails 500 "INTERNAL_ERROR", s)

-- `Depends(get_current_user)`
abbrev pub authenticated {ℓ κ} :
    {A : Type ℓ} {S : Type κ} → Result User → S → (User → Reply A × S) → Reply A × S
authenticated (ok u) s run = run u
authenticated (raise e) s run = (fails (status_code e) (error_code e), s)

-- The parsers of Python: `UUID(v)`, which raises ValueError, and `Decimal(v)`, which raises
-- InvalidOperation, where they give none. `parse_decimal` gives ten-thousandths: the texts are those
-- of amounts with at most four decimals, which no validator of the source checks; `normal` is
-- `str(Decimal(v))`.
pub record Texts : Type 0 where
  pub parse_uuid : String → Option ℕ
  pub parse_decimal : String → Option ℤ
  pub normal : String → String

abbrev or_value_error : Option ℕ → Result ℕ
or_value_error none = raise value_error
or_value_error (some i) = ok i

abbrev pub uuid_of : Texts → String → Result ℕ
uuid_of texts v = or_value_error (texts.parse_uuid v)

abbrev or_invalid_operation : Option ℤ → Result ℤ
or_invalid_operation none = raise invalid_operation
or_invalid_operation (some x) = ok x

abbrev pub decimal_of : Texts → String → Result ℤ
decimal_of texts v = or_invalid_operation (texts.parse_decimal v)

abbrev pub or_account_not_found : Option Account → Result Account
or_account_not_found none = raise account_not_found
or_account_not_found (some a) = ok a

-- `get_account_by_user` of the caller, or AccountNotFoundError.
abbrev pub caller_account : User → Db → Result Account
caller_account user db = or_account_not_found (find_account_by_user user.id db)
