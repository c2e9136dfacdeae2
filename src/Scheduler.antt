-- ===== src/Scheduler.antt =====
-- workers/payment_scheduler.py: the loop that executes scheduled payments. The claim and the two
-- steps of an execution are stubs in the source, so that a round finds no payment and an execution
-- writes nothing. `isoformat` of a timestamp is a parameter.
use miniwallet.Base.{ℕ, String, Option, List, [], ◌∷◌, ◌<>◌}
use miniwallet.Uuid.{str_uuid}
use miniwallet.Schemas.{Session}
use miniwallet.Api.Payments.{ScheduledPayment}

-- app/models/scheduled_payment_execution.py
pub record ScheduledPaymentExecution : Type 0 where
  pub id : ℕ
  pub scheduled_payment_id : ℕ
  pub scheduled_for : ℕ
  pub result : String
  pub skip_reason : Option String
  pub transfer_id : Option ℕ
  pub executed_at : ℕ

-- `due_payments: list[ScheduledPayment] = []`, whatever the table holds.
unfoldable pub claim_due : List ScheduledPayment → List ScheduledPayment
claim_due payments = []

-- f"scheduled:{payment.id}:{payment.next_run_at.isoformat()}"
abbrev pub execution_key : (ℕ → String) → ScheduledPayment → String
execution_key isoformat p = "scheduled:" <> (str_uuid p.id <> (":" <> isoformat p.next_run_at))

-- `_execute_payment`: the key is made, and used for nothing.
unfoldable pub execute_payment : (ℕ → String) → ScheduledPayment → Session → Session
execute_payment isoformat p s = let key = execution_key isoformat p in s

abbrev execute_all : (ℕ → String) → List ScheduledPayment → Session → Session
execute_all isoformat [] s = s
execute_all isoformat (p ∷ l) s = execute_all isoformat l (execute_payment isoformat p s)

-- `_poll_and_execute`
unfoldable pub poll_and_execute : (ℕ → String) → List ScheduledPayment → Session → Session
poll_and_execute isoformat payments s = execute_all isoformat (claim_due payments) s
