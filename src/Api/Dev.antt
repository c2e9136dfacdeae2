-- ===== src/Api/Dev.antt =====
-- app/routers/dev.py, which only the development environment allows, and app/routers/deposits.py.
use miniwallet.Base.{ℕ, String, not, str_eq, if◌then◌else◌}
use miniwallet.Base.Int.{ℤ}
use miniwallet.Errors.{Result, ok, raise, ◌>>=◌, forbidden}
use miniwallet.Models.{User}
use miniwallet.Db.{Db, Env}
use miniwallet.Schemas.{DepositResponse}
use miniwallet.Accounts.{SeedResponse}
use miniwallet.Deposits.{Webhook}
use miniwallet.Api.{Texts, uuid_of, decimal_of, caller_account}
use miniwallet.Api.Bodies.{SeedRequest, SimulateDepositRequest}

abbrev pub seeded : Env → String → User → Db → Result (ℕ × ℤ) → Result SeedResponse × Db
seeded env key user db (raise e) = (raise e, db)
seeded env key user db (ok (account_id, amount)) =
    miniwallet.Accounts.seed env account_id amount key user.id db

-- `seed`
unfoldable pub seed :
    Texts → String → Env → SeedRequest → String → User → Db → Result SeedResponse × Db
seed texts app_env env body key user db =
    if not (str_eq app_env "development")
    then (raise forbidden, db)
    else seeded env key user db
        (uuid_of texts body.account_id >>= λ i. decimal_of texts body.amount >>= λ x. ok (i, x))

-- The arguments of the call of `simulate_deposit`.
unfoldable pub webhook_of : Texts → SimulateDepositRequest → Result Webhook
webhook_of texts body = do
  account_id ← uuid_of texts body.account_id
  amount ← decimal_of texts body.amount
  ok (record {
    account_id = account_id;
    amount = amount;
    currency = body.currency;
    source_type = body.source_type;
    external_reference = body.external_reference;
  })

abbrev pub deposited : Env → Db → Result Webhook → Result DepositResponse × Db
deposited env db (raise e) = (raise e, db)
deposited env db (ok w) = miniwallet.Deposits.simulate_deposit env w db

-- `simulate_deposit`
unfoldable pub simulate_deposit :
    Texts → String → Env → SimulateDepositRequest → Db → Result DepositResponse × Db
simulate_deposit texts app_env env body db =
    if not (str_eq app_env "development")
    then (raise forbidden, db)
    else deposited env db (webhook_of texts body)

-- `get_deposit` of routers/deposits.py
unfoldable pub get_deposit : Texts → String → User → Db → Result DepositResponse
get_deposit texts deposit_id user db = do
  account ← caller_account user db
  i ← uuid_of texts deposit_id
  miniwallet.Deposits.get_deposit db i account.id
