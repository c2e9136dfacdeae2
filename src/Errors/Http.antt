-- ===== src/Errors/Http.antt =====
-- The class attributes of app/exceptions.py and the handler of app/main.py that reads them.
use miniwallet.Base.{ℕ, String}
use miniwallet.Errors.{
  Error, email_already_exists, invalid_credentials, invalid_refresh_token, unauthorized,
  account_already_exists, account_not_found, user_not_found, transfer_not_found,
  insufficient_balance, same_account, idempotency_conflict, idempotency_key_consumed,
  missing_idempotency_key, forbidden, deposit_not_found, withdrawal_not_found,
  bank_rail_unavailable, scheduled_payment_not_found, invalid_start_time, cannot_pay_self,
  recipient_required,
}

-- `status_code`; an error that is no MiniBankError ends as 500.
abbrev pub status_code : Error → ℕ
status_code email_already_exists = 409
status_code invalid_credentials = 401
status_code invalid_refresh_token = 401
status_code unauthorized = 401
status_code account_already_exists = 409
status_code account_not_found = 404
status_code user_not_found = 404
status_code transfer_not_found = 404
status_code insufficient_balance = 422
status_code same_account = 422
status_code idempotency_conflict = 409
status_code idempotency_key_consumed = 409
status_code missing_idempotency_key = 400
status_code forbidden = 403
status_code deposit_not_found = 404
status_code withdrawal_not_found = 404
status_code bank_rail_unavailable = 503
status_code scheduled_payment_not_found = 404
status_code invalid_start_time = 400
status_code cannot_pay_self = 400
status_code recipient_required = 422
status_code _ = 500

-- `error_code`
abbrev pub error_code : Error → String
error_code email_already_exists = "EMAIL_ALREADY_EXISTS"
error_code invalid_credentials = "INVALID_CREDENTIALS"
error_code invalid_refresh_token = "INVALID_REFRESH_TOKEN"
error_code unauthorized = "UNAUTHORIZED"
error_code account_already_exists = "ACCOUNT_ALREADY_EXISTS"
error_code account_not_found = "NOT_FOUND"
error_code user_not_found = "NOT_FOUND"
error_code transfer_not_found = "NOT_FOUND"
error_code insufficient_balance = "INSUFFICIENT_BALANCE"
error_code same_account = "SAME_ACCOUNT"
error_code idempotency_conflict = "IDEMPOTENCY_CONFLICT"
error_code idempotency_key_consumed = "IDEMPOTENCY_KEY_CONSUMED"
error_code missing_idempotency_key = "MISSING_IDEMPOTENCY_KEY"
error_code forbidden = "FORBIDDEN"
error_code deposit_not_found = "NOT_FOUND"
error_code withdrawal_not_found = "NOT_FOUND"
error_code bank_rail_unavailable = "BANK_RAIL_UNAVAILABLE"
error_code scheduled_payment_not_found = "NOT_FOUND"
error_code invalid_start_time = "INVALID_START_TIME"
error_code cannot_pay_self = "CANNOT_PAY_SELF"
error_code recipient_required = "VALIDATION_ERROR"
error_code _ = "INTERNAL_ERROR"
