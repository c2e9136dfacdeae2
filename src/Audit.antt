-- ===== src/Audit.antt =====
-- workers/audit_consumer.py: every event of two topics becomes one row of audit_events, which has a
-- unique event_id. A duplicate is silenced, as in the activity consumer.
pub mod Laws
use miniwallet.Base.{
  ℕ, ◌≡◌, ◌≢◌, ◌⊎◌, inl, inr, refl, ◌∙◌, ap, String, Bool, true, false, Option, none, some, List,
  [], ◌∷◌, any, filter, length, ◌==◌, not, Bool-cases, str_eq, if◌then◌else◌, arith,
}
use miniwallet.Errors.{Result, ok, raise, ◌>>=◌, ◌>>◌, validation_error, audit_events_event_id_key}
use miniwallet.Events.{
  Leaf, uuid, decimal, text, Dict, EventPayload, EventEnvelope, model_dump, transfer_completed,
  transfer_failed, account_opened, seed_completed, deposit_completed, deposit_rejected,
  withdrawal_initiated, withdrawal_completed, withdrawal_failed, payment_executed, payment_skipped,
}
use miniwallet.Events.Parse.{
  Parsed, typed, plain, parse_event, parse_event-model_dump, event_type_of,
}
use miniwallet.Activity.{as_uuid}
use miniwallet.Db.{require}

-- app/models/audit_event.py, with the event's dictionary as the envelope that it holds.
pub record AuditEvent : Type 0 where
  pub event_id : ℕ
  pub event_type : String
  pub actor_id : Option ℕ
  pub resource_id : Option ℕ
  pub resource_type : Option String
  pub payload : EventEnvelope
  pub occurred_at : ℕ

-- `topics`
abbrev pub topics : List String
topics = "transfer.events" ∷ "account.events" ∷ []

-- `_RESOURCE_TYPE.get(event_type)`
unfoldable pub resource_type : String → Option String
resource_type t =
    if str_eq t "transfer.completed"
    then some "transfer"
    else if str_eq t "transfer.failed"
    then some "transfer"
    else if str_eq t "account.opened"
    then some "account"
    else if str_eq t "seed.completed"
    then some "account"
    else none

-- `getattr(payload, "transfer_id", None) or getattr(payload, "account_id", None)`; a plain
-- dictionary, which an unknown type has, has neither attribute.
unfoldable pub resource_text : Parsed → Option Leaf
resource_text (typed (transfer_completed i _ _ _ _ _ _)) = some i
resource_text (typed (transfer_failed i _ _ _ _ _ _ _)) = some i
resource_text (typed (account_opened a _ _)) = some a
resource_text (typed (seed_completed a _ _ _ _)) = some a
resource_text (typed (deposit_completed _ a _ _ _ _ _)) = some a
resource_text (typed (deposit_rejected _ a _ _ _ _)) = some a
resource_text (typed (withdrawal_initiated _ a _ _ _ _)) = some a
resource_text (typed (withdrawal_completed _ a _ _ _ _)) = some a
resource_text (typed (withdrawal_failed _ a _ _ _ _)) = some a
resource_text (typed (payment_executed _ i _ _ _ _)) = some i
resource_text (typed (payment_skipped _ _ _ _ _ _)) = none
resource_text (plain _) = none

-- `uuid.UUID(resource_id_str) if resource_id_str else None`
abbrev pub resource_of : Option Leaf → Result (Option ℕ)
resource_of none = ok none
resource_of (some (text s)) = if str_eq s "" then ok none else as_uuid (text s) >>= λ i. ok (some i)
resource_of (some l) = as_uuid l >>= λ i. ok (some i)

abbrev pub audit_row : EventEnvelope → Option ℕ → AuditEvent
audit_row envelope resource = record {
  event_id = envelope.event_id;
  event_type = envelope.event_type;
  actor_id = envelope.actor_id;
  resource_id = resource;
  resource_type = resource_type envelope.event_type;
  payload = envelope;
  occurred_at = envelope.occurred_at;
}

abbrev pub has_event : ℕ → List AuditEvent → Bool
has_event i l = any (λ (e : AuditEvent). e.event_id == i) l

unfoldable pub insert_audit_event : AuditEvent → List AuditEvent → Result (List AuditEvent)
insert_audit_event e l = do
  require (not (has_event e.event_id l)) audit_events_event_id_key
  ok (e ∷ l)

-- `except IntegrityError`
abbrev pub silenced : List AuditEvent → Result (List AuditEvent) → Result (List AuditEvent)
silenced l (ok l') = ok l'
silenced l (raise e) = ok l

-- `process`
unfoldable pub process : EventEnvelope → List AuditEvent → Result (List AuditEvent)
unfolding insert_audit_event
process envelope l = do
  payload ← parse_event envelope
  resource ← resource_of (resource_text payload)
  silenced l (insert_audit_event (audit_row envelope resource) l)

-- The rows of one event.
abbrev pub rows_for : ℕ → List AuditEvent → List AuditEvent
rows_for i l = filter (λ (e : AuditEvent). e.event_id == i) l
