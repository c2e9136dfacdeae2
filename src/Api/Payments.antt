-- ===== src/Api/Payments.antt =====
-- app/routers/scheduled_payments.py over app/services/scheduled_payment_service.py, whose three
-- operations are stubs (`pass`): they return None. Of workers/payment_scheduler.py, which claims no
-- payment, `advance_schedule` is written; the calendar of `dateutil` is its parameter.
use miniwallet.Base.{ℕ, ◌+◌, ◌*◌, String, Option, none, some, List, str_eq, if◌then◌else◌}
use miniwallet.Base.Int.{ℤ}
use miniwallet.Errors.{Result, ok, raise, ◌>>=◌, value_error, attribute_error}
use miniwallet.Models.{User}
use miniwallet.Db.{Db}
use miniwallet.Api.{Texts, uuid_of, decimal_of, caller_account}
use miniwallet.Api.Bodies.{ScheduledPaymentRequest}

pub record ScheduledPayment : Type 0 where
  pub id : ℕ
  pub from_account_id : ℕ
  pub to_account_id : ℕ
  pub amount : ℤ
  pub currency : String
  pub frequency : String
  pub next_run_at : ℕ
  pub status : String
  pub created_at : ℕ
  pub updated_at : ℕ

pub record ScheduledPaymentResponse : Type 0 where
  pub id : ℕ
  pub from_account_id : ℕ
  pub to_account_id : ℕ
  pub amount : ℤ
  pub currency : String
  pub frequency : String
  pub next_run_at : ℕ
  pub status : String
  pub created_at : ℕ

-- `_payment_to_response`
unfoldable pub payment_to_response : ScheduledPayment → ScheduledPaymentResponse
payment_to_response p = record {
  id = p.id;
  from_account_id = p.from_account_id;
  to_account_id = p.to_account_id;
  amount = p.amount;
  currency = p.currency;
  frequency = p.frequency;
  next_run_at = p.next_run_at;
  status = p.status;
  created_at = p.created_at;
}

-- `pass`: the function returns None, and the database is as it was.
unfoldable pub create_scheduled_payment :
    Db → ℕ → ℕ → ℤ → String → ℕ → Option ScheduledPaymentResponse × Db
create_scheduled_payment db from_account_id to_account_id amount frequency start_at = (none, db)

unfoldable pub list_scheduled_payments : Db → ℕ → Option (List ScheduledPaymentResponse) × Db
list_scheduled_payments db from_account_id = (none, db)

unfoldable pub cancel_scheduled_payment : Db → ℕ → ℕ → Unit {0} × Db
cancel_scheduled_payment db payment_id from_account_id = (tt, db)

-- `result.model_dump()`, and the iteration over the results: None has neither.
abbrev or_attribute_error {ℓ} : {A : Type ℓ} → Option A × Db → Result A × Db
or_attribute_error (none, db) = (raise attribute_error, db)
or_attribute_error (some a, db) = (ok a, db)

abbrev arguments : Texts → ScheduledPaymentRequest → User → Db → Result (ℕ × ℕ × ℤ)
arguments texts body user db = do
  sender ← caller_account user db
  target ← uuid_of texts body.to_account_id
  amount ← decimal_of texts body.amount
  ok (sender.id, target, amount)

abbrev pub created :
    ScheduledPaymentRequest → Db → Result (ℕ × ℕ × ℤ) → Result ScheduledPaymentResponse × Db
created body db (raise e) = (raise e, db)
created body db (ok (sender, target, amount)) =
    or_attribute_error
      (create_scheduled_payment db sender target amount body.frequency body.start_at)

-- POST /v1/scheduled-payments
unfoldable pub post_payment :
    Texts → ScheduledPaymentRequest → User → Db → Result ScheduledPaymentResponse × Db
unfolding create_scheduled_payment
post_payment texts body user db = created body db (arguments texts body user db)

abbrev pub listed : Db → Result ℕ → Result (List ScheduledPaymentResponse) × Db
listed db (raise e) = (raise e, db)
listed db (ok sender) = or_attribute_error (list_scheduled_payments db sender)

-- GET /v1/scheduled-payments
unfoldable pub list_payments : User → Db → Result (List ScheduledPaymentResponse) × Db
unfolding list_scheduled_payments
list_payments user db = listed db (caller_account user db >>= λ a. ok a.id)

abbrev pub cancelled : Db → Result (ℕ × ℕ) → Result (Unit {0}) × Db
cancelled db (raise e) = (raise e, db)
cancelled db (ok (sender, i)) = (ok tt, (cancel_scheduled_payment db i sender).1)

-- DELETE /v1/scheduled-payments/{id}
unfoldable pub delete_payment : Texts → String → User → Db → Result (Unit {0}) × Db
unfolding cancel_scheduled_payment
delete_payment texts payment_id user db =
    cancelled db (caller_account user db >>= λ a. uuid_of texts payment_id >>= λ i. ok (a.id, i))

-- `advance_schedule`: `add_month` is `current + relativedelta(months=1)`.
unfoldable pub advance_schedule : (ℕ → ℕ) → ℕ → String → Result ℕ
advance_schedule add_month current frequency =
    if str_eq frequency "daily"
    then ok (current + 86400)
    else if str_eq frequency "weekly"
    then ok (current + 7 * 86400)
    else if str_eq frequency "monthly"
    then ok (add_month current)
    else raise value_error
