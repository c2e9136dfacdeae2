-- ===== src/Events.antt =====
-- app/events/schemas.py and the envelope of app/events/publisher.py. A payload is a dict of strings;
-- the text that formatting makes of a UUID or an amount is kept as the value itself.
pub mod Parse
use mathlib.Core.List.{List, [], ◌∷◌}
use miniwallet.Base.{ℕ, String, Option}
use miniwallet.Base.Int.{ℤ}

-- What a payload's string holds: `str(uuid)`, `f"{amount:.4f}"`, or any other text.
pub data Leaf : Type 0 where
  uuid : ℕ → Leaf
  decimal : ℤ → Leaf
  text : String → Leaf

abbrev pub Dict : Type 0
Dict = List (String × Leaf)

-- The payload models, with their fields in the order of the source.
pub data EventPayload : Type 0 where
  transfer_completed :
      (transfer_id from_account_id to_account_id amount currency entry_type idempotency_key : Leaf)
      → EventPayload
  transfer_failed :
      (transfer_id from_account_id to_account_id amount currency failure_code entry_type
        idempotency_key : Leaf)
      → EventPayload
  account_opened : (account_id user_id status : Leaf) → EventPayload
  seed_completed : (account_id user_id amount currency entry_type : Leaf) → EventPayload
  deposit_completed :
      (deposit_id account_id amount currency source_type entry_type external_reference : Leaf)
      → EventPayload
  deposit_rejected :
      (deposit_id account_id amount currency entry_type rejection_reason : Leaf) → EventPayload
  withdrawal_initiated :
      (withdrawal_id account_id amount currency destination_type entry_type : Leaf) → EventPayload
  withdrawal_completed :
      (withdrawal_id account_id amount currency external_reference entry_type : Leaf) → EventPayload
  withdrawal_failed :
      (withdrawal_id account_id amount currency failure_code entry_type : Leaf) → EventPayload
  payment_executed :
      (scheduled_payment_id transfer_id amount currency from_account_id to_account_id : Leaf)
      → EventPayload
  payment_skipped :
      (scheduled_payment_id amount currency from_account_id to_account_id skip_reason : Leaf)
      → EventPayload

-- `payload.model_dump()`
unfoldable pub model_dump : EventPayload → Dict
model_dump (transfer_completed i f t a c e k) =
    ("transfer_id", i)
    ∷ ("from_account_id", f)
    ∷ ("to_account_id", t)
    ∷ ("amount", a)
    ∷ ("currency", c)
    ∷ ("entry_type", e)
    ∷ ("idempotency_key", k)
    ∷ []
model_dump (transfer_failed i f t a c r e k) =
    ("transfer_id", i)
    ∷ ("from_account_id", f)
    ∷ ("to_account_id", t)
    ∷ ("amount", a)
    ∷ ("currency", c)
    ∷ ("failure_code", r)
    ∷ ("entry_type", e)
    ∷ ("idempotency_key", k)
    ∷ []
model_dump (account_opened a u s) = ("account_id", a) ∷ ("user_id", u) ∷ ("status", s) ∷ []
model_dump (seed_completed i u a c e) =
    ("account_id", i) ∷ ("user_id", u) ∷ ("amount", a) ∷ ("currency", c) ∷ ("entry_type", e) ∷ []
model_dump (deposit_completed d i a c s e x) =
    ("deposit_id", d)
    ∷ ("account_id", i)
    ∷ ("amount", a)
    ∷ ("currency", c)
    ∷ ("source_type", s)
    ∷ ("entry_type", e)
    ∷ ("external_reference", x)
    ∷ []
model_dump (deposit_rejected d i a c e r) =
    ("deposit_id", d)
    ∷ ("account_id", i)
    ∷ ("amount", a)
    ∷ ("currency", c)
    ∷ ("entry_type", e)
    ∷ ("rejection_reason", r)
    ∷ []
model_dump (withdrawal_initiated w i a c d e) =
    ("withdrawal_id", w)
    ∷ ("account_id", i)
    ∷ ("amount", a)
    ∷ ("currency", c)
    ∷ ("destination_type", d)
    ∷ ("entry_type", e)
    ∷ []
model_dump (withdrawal_completed w i a c x e) =
    ("withdrawal_id", w)
    ∷ ("account_id", i)
    ∷ ("amount", a)
    ∷ ("currency", c)
    ∷ ("external_reference", x)
    ∷ ("entry_type", e)
    ∷ []
model_dump (withdrawal_failed w i a c r e) =
    ("withdrawal_id", w)
    ∷ ("account_id", i)
    ∷ ("amount", a)
    ∷ ("currency", c)
    ∷ ("failure_code", r)
    ∷ ("entry_type", e)
    ∷ []
model_dump (payment_executed p t a c f o) =
    ("scheduled_payment_id", p)
    ∷ ("transfer_id", t)
    ∷ ("amount", a)
    ∷ ("currency", c)
    ∷ ("from_account_id", f)
    ∷ ("to_account_id", o)
    ∷ []
model_dump (payment_skipped p a c f o r) =
    ("scheduled_payment_id", p)
    ∷ ("amount", a)
    ∷ ("currency", c)
    ∷ ("from_account_id", f)
    ∷ ("to_account_id", o)
    ∷ ("skip_reason", r)
    ∷ []

-- `EventEnvelope`
pub record EventEnvelope : Type 0 where
  pub event_id : ℕ
  pub event_type : String
  pub occurred_at : ℕ
  pub version : String
  pub actor_id : Option ℕ
  pub payload : Dict
