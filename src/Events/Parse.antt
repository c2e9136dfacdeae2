-- ===== src/Events/Parse.antt =====
-- `parse_event` of app/events/schemas.py: the dispatch table and the payload models' validation.
use miniwallet.Base.{ℕ, String, Option, none, some, List, [], ◌∷◌, str_eq, if◌then◌else◌, ◌≡◌, refl}
use miniwallet.Errors.{Result, ok, raise, validation_error, ◌>>=◌}
use miniwallet.Events.{
  Leaf, Dict, EventPayload, EventEnvelope, transfer_completed, transfer_failed, account_opened,
  seed_completed, deposit_completed, deposit_rejected, withdrawal_initiated, withdrawal_completed,
  withdrawal_failed, payment_executed, payment_skipped, model_dump,
}

-- A required field; pydantic raises ValidationError where it is missing, and ignores other keys.
pub field : String → Dict → Result Leaf
field k [] = raise validation_error
field k ((j, v) ∷ d) = let rest = field k d in if str_eq j k then ok v else rest

-- The keys of `PAYLOAD_MODELS`, one for each payload model.
pub data PayloadModel : Type 0 where
  transfer_completed_model transfer_failed_model account_opened_model : PayloadModel
  seed_completed_model deposit_completed_model deposit_rejected_model : PayloadModel
  withdrawal_initiated_model withdrawal_completed_model withdrawal_failed_model : PayloadModel
  payment_executed_model payment_skipped_model : PayloadModel

abbrev model_table : List (String × PayloadModel)
model_table =
    ("transfer.completed", transfer_completed_model)
    ∷ ("transfer.failed", transfer_failed_model)
    ∷ ("account.opened", account_opened_model)
    ∷ ("seed.completed", seed_completed_model)
    ∷ ("deposit.completed", deposit_completed_model)
    ∷ ("deposit.rejected", deposit_rejected_model)
    ∷ ("withdrawal.initiated", withdrawal_initiated_model)
    ∷ ("withdrawal.completed", withdrawal_completed_model)
    ∷ ("withdrawal.failed", withdrawal_failed_model)
    ∷ ("payment.executed", payment_executed_model)
    ∷ ("payment.skipped", payment_skipped_model)
    ∷ []

lookup_model : String → List (String × PayloadModel) → Option PayloadModel
lookup_model t [] = none
lookup_model t ((j, m) ∷ r) = let rest = lookup_model t r in if str_eq j t then some m else rest

-- `PAYLOAD_MODELS.get(event_type)`
pub payload_model : String → Option PayloadModel
unfolding lookup_model
payload_model t = lookup_model t model_table

-- `model_cls(**payload)`
pub validate : PayloadModel → Dict → Result EventPayload
unfolding field
validate transfer_completed_model d = do
  i ← field "transfer_id" d
  f ← field "from_account_id" d
  t ← field "to_account_id" d
  a ← field "amount" d
  c ← field "currency" d
  e ← field "entry_type" d
  k ← field "idempotency_key" d
  ok (transfer_completed i f t a c e k)
validate transfer_failed_model d = do
  i ← field "transfer_id" d
  f ← field "from_account_id" d
  t ← field "to_account_id" d
  a ← field "amount" d
  c ← field "currency" d
  r ← field "failure_code" d
  e ← field "entry_type" d
  k ← field "idempotency_key" d
  ok (transfer_failed i f t a c r e k)
validate account_opened_model d = do
  a ← field "account_id" d
  u ← field "user_id" d
  s ← field "status" d
  ok (account_opened a u s)
validate seed_completed_model d = do
  i ← field "account_id" d
  u ← field "user_id" d
  a ← field "amount" d
  c ← field "currency" d
  e ← field "entry_type" d
  ok (seed_completed i u a c e)
validate deposit_completed_model d = do
  x ← field "deposit_id" d
  i ← field "account_id" d
  a ← field "amount" d
  c ← field "currency" d
  s ← field "source_type" d
  e ← field "entry_type" d
  r ← field "external_reference" d
  ok (deposit_completed x i a c s e r)
validate deposit_rejected_model d = do
  x ← field "deposit_id" d
  i ← field "account_id" d
  a ← field "amount" d
  c ← field "currency" d
  e ← field "entry_type" d
  r ← field "rejection_reason" d
  ok (deposit_rejected x i a c e r)
validate withdrawal_initiated_model d = do
  w ← field "withdrawal_id" d
  i ← field "account_id" d
  a ← field "amount" d
  c ← field "currency" d
  t ← field "destination_type" d
  e ← field "entry_type" d
  ok (withdrawal_initiated w i a c t e)
validate withdrawal_completed_model d = do
  w ← field "withdrawal_id" d
  i ← field "account_id" d
  a ← field "amount" d
  c ← field "currency" d
  x ← field "external_reference" d
  e ← field "entry_type" d
  ok (withdrawal_completed w i a c x e)
validate withdrawal_failed_model d = do
  w ← field "withdrawal_id" d
  i ← field "account_id" d
  a ← field "amount" d
  c ← field "currency" d
  r ← field "failure_code" d
  e ← field "entry_type" d
  ok (withdrawal_failed w i a c r e)
validate payment_executed_model d = do
  p ← field "scheduled_payment_id" d
  t ← field "transfer_id" d
  a ← field "amount" d
  c ← field "currency" d
  f ← field "from_account_id" d
  o ← field "to_account_id" d
  ok (payment_executed p t a c f o)
validate payment_skipped_model d = do
  p ← field "scheduled_payment_id" d
  a ← field "amount" d
  c ← field "currency" d
  f ← field "from_account_id" d
  o ← field "to_account_id" d
  r ← field "skip_reason" d
  ok (payment_skipped p a c f o r)

-- An event type that no model is registered for leaves the payload a plain dict.
pub data Parsed : Type 0 where
  typed : EventPayload → Parsed
  plain : Dict → Parsed

-- `parse_event`, on an envelope whose own fields are present
unfoldable pub parse_event : EventEnvelope → Result Parsed
unfolding payload_model validate
parse_event envelope = elim (payload_model envelope.event_type) [
  | none ↦ ok (plain envelope.payload)
  | some model ↦ (validate model envelope.payload >>= λ p. ok (typed p))
]

-- The event type under which the services publish each payload.
unfoldable pub event_type_of : EventPayload → String
event_type_of (transfer_completed _ _ _ _ _ _ _) = "transfer.completed"
event_type_of (transfer_failed _ _ _ _ _ _ _ _) = "transfer.failed"
event_type_of (account_opened _ _ _) = "account.opened"
event_type_of (seed_completed _ _ _ _ _) = "seed.completed"
event_type_of (deposit_completed _ _ _ _ _ _ _) = "deposit.completed"
event_type_of (deposit_rejected _ _ _ _ _ _) = "deposit.rejected"
event_type_of (withdrawal_initiated _ _ _ _ _ _) = "withdrawal.initiated"
event_type_of (withdrawal_completed _ _ _ _ _ _) = "withdrawal.completed"
event_type_of (withdrawal_failed _ _ _ _ _ _) = "withdrawal.failed"
event_type_of (payment_executed _ _ _ _ _ _) = "payment.executed"
event_type_of (payment_skipped _ _ _ _ _ _) = "payment.skipped"

-- An envelope made from a payload under its own event type parses back to that payload, for every
-- one of the eleven payload models.
pub parse_event-model_dump :
    (p : EventPayload) (event_id occurred_at : ℕ) (actor : Option ℕ)
    → parse_event (record {
      event_id = event_id;
      event_type = event_type_of p;
      occurred_at = occurred_at;
      version = "1";
      actor_id = actor;
      payload = model_dump p;
    })
      ≡ ok (typed p)
unfolding parse_event model_dump event_type_of
parse_event-model_dump (transfer_completed _ _ _ _ _ _ _) n t a = refl
parse_event-model_dump (transfer_failed _ _ _ _ _ _ _ _) n t a = refl
parse_event-model_dump _ n t a = refl
