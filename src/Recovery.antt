-- ===== src/Recovery.antt =====
-- workers/saga_recovery.py: the sweeper that resolves withdrawals which a crash left behind. A
-- withdrawal is resolved in one transaction, in which the rail is called too; a commit that fails
-- takes the database back, and Redis and the rail stay as the call left them.
pub mod Laws
pub mod Movement
pub mod Refunds
pub mod Sweep
pub mod Timeouts
use miniwallet.Base.{
  ℕ, ◌+◌, ◌*◌, String, Bool, true, false, Option, none, some, List, [], ◌∷◌, filter, find?, map,
  take, ltb, not, ◌==◌, ◌&&◌, str_eq, if◌then◌else◌,
}
use miniwallet.Errors.{Result, ok, raise, ◌>>=◌}
use miniwallet.Events.{uuid, decimal, text, withdrawal_completed, withdrawal_failed}
use miniwallet.Models.{Withdrawal, WithdrawalStatus}
use miniwallet.Db.{Db, Env, insert_ledger_entry, publish_event}
use miniwallet.Rail.{Rail, RailState, RailStatus, Draw, query_status}
use miniwallet.Circuit.{
  Circuit, Config, CallReply, result, rail_failed, circuit_open, is_call_allowed,
}
use miniwallet.Withdrawals.{
  World, update_withdrawal, submit, set_submitted, set_failed, reversal_debit, reversal_credit,
}
use miniwallet.Withdrawals.Steps.{guarded_send}

abbrev pub stuck_threshold_minutes : ℕ
stuck_threshold_minutes = 5

abbrev pub hard_timeout_minutes : ℕ
hard_timeout_minutes = 30

abbrev pub batch_limit : ℕ
batch_limit = 20

abbrev pub is_stuck_status : WithdrawalStatus → Bool
is_stuck_status WithdrawalStatus.pending = true
is_stuck_status WithdrawalStatus.submitted = true
is_stuck_status _ = false

-- What one resolution draws: its transaction's ids and times, the pre-flight check, and the rail's.
pub record Draws : Type 0 where
  pub checked_at : ℕ
  pub submitted_at : ℕ
  pub call_at : ℕ
  pub returned_at : ℕ
  pub rail : Draw
  pub tx : Env

-- `if withdrawal.submitted_at is None: withdrawal.submitted_at = now`
abbrev pub or_now : ℕ → Option ℕ → Option ℕ
or_now now none = some now
or_now now (some t) = some t

abbrev pub set_recovered : ℕ → String → Withdrawal → Withdrawal
set_recovered now reference w = record w {
  status = WithdrawalStatus.completed;
  external_reference = some reference;
  completed_at = some now;
  submitted_at = or_now now w.submitted_at;
  updated_at = now;
}

-- `_compensate` of the worker.
unfoldable pub compensate : Env → Withdrawal → String → Db → Result Db
compensate env w code db = do
  db₁ ← insert_ledger_entry (reversal_debit env w) db
  db₂ ← insert_ledger_entry (reversal_credit env w) db₁
  ok (
      publish_event env "withdrawal.events" "withdrawal.failed"
        (withdrawal_failed (uuid w.id) (uuid w.account_id) (decimal w.amount) (text w.currency)
          (text code) (text "withdrawal_reversal"))
        none none (update_withdrawal w.id (set_failed (env.now 0) code) db₂))

-- `_complete` of the worker
unfoldable pub complete : Env → Withdrawal → String → Db → Db
complete env w reference db =
    publish_event env "withdrawal.events" "withdrawal.completed"
      (withdrawal_completed (uuid w.id) (uuid w.account_id) (decimal w.amount) (text w.currency)
        (text reference) (text "withdrawal"))
      none none (update_withdrawal w.id (set_recovered (env.now 0) reference) db)

-- The rail's reply to the call of `_recover_pending`.
unfoldable pub settle_pending : Draws → Withdrawal → CallReply → Db → Result Db
settle_pending d w (result reference) db = ok (complete d.tx w reference db)
settle_pending d w (rail_failed code) db = compensate d.tx w code db
settle_pending d w circuit_open db = compensate d.tx w "CIRCUIT_OPEN" db

-- `_recover_pending`: the result of its transaction, and Redis and the rail after it.
unfoldable pub recover_pending : Config → Draws → Withdrawal → World → Result Db × Circuit × Rail
unfolding settle_pending
recover_pending cfg d w s =
    if not (is_call_allowed cfg d.checked_at s.circuit)
    then (compensate d.tx w "CIRCUIT_OPEN" s.db, s.circuit, s.rail)
    else (let (reply, circuit', rail') =
          guarded_send cfg d.call_at d.returned_at d.rail s.circuit s.rail in
        (
          settle_pending d (set_submitted d.submitted_at w) reply (submit d.submitted_at w s.db),
          circuit',
          rail',
        ))

abbrev or_rejected : Option String → String
or_rejected none = "RAIL_REJECTED"
or_rejected (some reason) = if str_eq reason "" then "RAIL_REJECTED" else reason

-- `withdrawal.updated_at < hard_timeout_cutoff`
abbrev pub timed_out : Draws → Withdrawal → Bool
timed_out d w = ltb (w.updated_at + hard_timeout_minutes * 60) d.checked_at

unfoldable pub on_timeout : Draws → Withdrawal → Db → Result Db
on_timeout d w db = if timed_out d w then compensate d.tx w "TIMEOUT" db else ok db

abbrev by_rail_state : Draws → Withdrawal → String → Option String → Db → RailState → Result Db
by_rail_state d w reference reason db RailState.completed = ok (complete d.tx w reference db)
by_rail_state d w reference reason db RailState.failed = compensate d.tx w (or_rejected reason) db
by_rail_state d w reference reason db RailState.processing = ok db

abbrev by_state : Draws → Withdrawal → String → Option RailStatus → Db → Result Db
by_state d w reference none db = on_timeout d w db
by_state d w reference (some st) db = by_rail_state d w reference st.reason db st.state

-- `if withdrawal.external_reference:` holds of a text that is there and not empty.
abbrev by_reference :
    (String → Option RailStatus) → Draws → Withdrawal → Option String → Db → Result Db
by_reference query d w none db = on_timeout d w db
by_reference query d w (some reference) db =
    if str_eq reference "" then on_timeout d w db else by_state d w reference (query reference) db

-- `_recover_submitted`; `query` is the rail's, and answers none where it raises.
unfoldable pub recover_submitted :
    (String → Option RailStatus) → Draws → Withdrawal → Db → Result Db
unfolding on_timeout
recover_submitted query d w db = by_reference query d w w.external_reference db

abbrev commit : World → Result Db × Circuit × Rail → World
commit s (ok db', c, rail) = record s { db = db'; circuit = c; rail = rail }
commit s (raise e, c, rail) = record s { circuit = c; rail = rail }

abbrev pub by_status : Config → Draws → Withdrawal → World → WithdrawalStatus → World
by_status cfg d w s WithdrawalStatus.pending = commit s (recover_pending cfg d w s)
by_status cfg d w s WithdrawalStatus.submitted =
    commit s (recover_submitted (λ r. some (query_status r)) d w s.db, s.circuit, s.rail)
by_status cfg d w s _ = s

abbrev pub find_withdrawal : ℕ → Db → Option Withdrawal
find_withdrawal i db = find? (λ (w : Withdrawal). w.id == i) db.withdrawals

abbrev resolve_row : Config → Draws → World → Option Withdrawal → World
resolve_row cfg d s none = s
resolve_row cfg d s (some w) = by_status cfg d w s w.status

-- `_resolve_one`
unfoldable pub resolve_one : Config → Draws → ℕ → World → World
resolve_one cfg d i s = resolve_row cfg d s (find_withdrawal i s.db)

-- The rows of Phase 1: stuck, old enough, and locked by no other transaction.
abbrev is_claimable : (ℕ → Bool) → ℕ → Withdrawal → Bool
is_claimable locked now w =
    is_stuck_status w.status
    && ltb (w.updated_at + stuck_threshold_minutes * 60) now
    && not (locked w.id)

unfoldable pub claim_stuck : (ℕ → Bool) → ℕ → Db → List ℕ
claim_stuck locked now db =
    map (λ (w : Withdrawal). w.id)
      (take batch_limit (filter (is_claimable locked now) db.withdrawals))

-- Phase 2: one after another, each with its own draws.
unfoldable pub resolve_all : Config → (ℕ → Draws) → List ℕ → World → World
resolve_all cfg draws [] s = s
resolve_all cfg draws (i ∷ l) s = resolve_all cfg draws l (resolve_one cfg (draws i) i s)

-- `recover_stuck_withdrawals`
unfoldable pub recover_stuck_withdrawals : Config → (ℕ → Bool) → ℕ → (ℕ → Draws) → World → World
unfolding claim_stuck resolve_all
recover_stuck_withdrawals cfg locked now draws s =
    resolve_all cfg draws (claim_stuck locked now s.db) s
