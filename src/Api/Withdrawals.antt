-- ===== src/Api/Withdrawals.antt =====
-- app/routers/withdrawals.py
use miniwallet.Base.{ℕ, String, some, not, if◌then◌else◌}
use miniwallet.Errors.{Result, ok, raise, ◌>>=◌, bank_rail_unavailable}
use miniwallet.Models.{User}
use miniwallet.Db.{Db}
use miniwallet.Circuit.{default_config, is_call_allowed}
use miniwallet.Schemas.{HashInput, WithdrawalResponse}
use miniwallet.Withdrawals.{Request, World}
use miniwallet.Withdrawals.Steps.{Draws, create_withdrawal as run_saga}
use miniwallet.Api.{Texts, uuid_of, decimal_of, caller_account}
use miniwallet.Api.Bodies.{WithdrawalRequest}

-- The arguments of the call of `create_withdrawal`.
unfoldable pub withdrawal_request : Texts → WithdrawalRequest → String → User → Db → Result Request
withdrawal_request texts body key user db = do
  sender ← caller_account user db
  amount ← decimal_of texts body.amount
  ok (record {
    account_id = sender.id;
    amount = amount;
    amount_text = texts.normal body.amount;
    currency = body.currency;
    destination_type = body.destination_type;
    destination_details = body.destination_details;
    idempotency_key = key;
    actor_user_id = some user.id;
  })

module _ (sha256 : HashInput → String) where
  abbrev pub withdrawn : Draws → World → Result Request → Result WithdrawalResponse × World
  withdrawn d s (raise e) = (raise e, s)
  withdrawn d s (ok r) = run_saga sha256 (some default_config) d r s

  -- `create_withdrawal`, with the pre-flight check at the given time.
  unfoldable pub create_withdrawal :
      Texts
      → ℕ
      → Draws
      → WithdrawalRequest
      → String
      → User
      → World
      → Result WithdrawalResponse × World
  create_withdrawal texts now d body key user s =
      if not (is_call_allowed default_config now s.circuit)
      then (raise bank_rail_unavailable, s)
      else withdrawn d s (withdrawal_request texts body key user s.db)

-- `get_withdrawal`
unfoldable pub get_withdrawal : Texts → String → User → Db → Result WithdrawalResponse
get_withdrawal texts withdrawal_id user db = do
  account ← caller_account user db
  i ← uuid_of texts withdrawal_id
  miniwallet.Withdrawals.get_withdrawal db i account.id
