-- ===== src/Activity/Replay.antt =====
-- What the events in the outbox say about balances: the read model that replaying them all gives.
use miniwallet.Base.{ℕ, ◌≡◌, refl, String, Option, List, [], ◌∷◌, ◌++◌, ◌==◌, if◌then◌else◌}
use miniwallet.Base.Int.{ℤ, ◌+ℤ◌, ◌-ℤ◌}
use miniwallet.Errors.{Result, ok, raise, ◌>>=◌}
use miniwallet.Events.{
  Leaf, uuid, decimal, text, EventPayload, EventEnvelope, model_dump, transfer_completed,
  transfer_failed, account_opened, seed_completed, deposit_completed, deposit_rejected,
  withdrawal_initiated, withdrawal_completed, withdrawal_failed,
}
use miniwallet.Events.Parse.{parse_event, event_type_of}
use miniwallet.Db.{Db, Env, OutboxRow, outbox_row}
use miniwallet.Activity.{TransactionActivity, activity_row, rows_of, activity_balance}

abbrev pub or_no_rows : Result (List TransactionActivity) → List TransactionActivity
or_no_rows (ok rows) = rows
or_no_rows (raise e) = []

-- The rows that the consumer adds for an event that it has not seen.
unfoldable pub event_rows : EventEnvelope → List TransactionActivity
event_rows envelope = or_no_rows (parse_event envelope >>= rows_of envelope)

-- The rows of all events, those of the newest event first.
abbrev pub replayed : List OutboxRow → List TransactionActivity
replayed [] = []
replayed (r ∷ l) = event_rows r.payload ++ replayed l

-- The balance that the events show.
unfoldable pub shown : Db → ℕ → ℤ
shown db a = activity_balance a (replayed db.outbox)

module _ (env : Env) (topic : String) (actor id : Option ℕ) (l : List OutboxRow) (a : ℕ) where
  -- The balance with one more event.
  abbrev pub shown_after : String → EventPayload → ℤ
  shown_after event_type p =
      activity_balance a (replayed (outbox_row env topic event_type p actor id ∷ l))

  pub shown-transfer_completed :
      (i f t : ℕ) (x : ℤ) (c e k : String)
      → shown_after "transfer.completed"
          (transfer_completed (uuid i) (uuid f) (uuid t) (decimal x) (text c) (text e) (text k))
        ≡ (let rest = activity_balance a (replayed l) in
            let received = if t == a then rest +ℤ x else rest in
            if f == a then received -ℤ x else received)
  unfolding event_rows parse_event event_type_of model_dump rows_of activity_row
  shown-transfer_completed i f t x c e k = refl

  pub shown-seed_completed :
      (i u : ℕ) (x : ℤ) (c e : String)
      → shown_after "seed.completed"
          (seed_completed (uuid i) (uuid u) (decimal x) (text c) (text e))
        ≡ (let rest = activity_balance a (replayed l) in if i == a then rest +ℤ x else rest)
  unfolding event_rows parse_event event_type_of model_dump rows_of activity_row
  shown-seed_completed i u x c e = refl

  pub shown-deposit_completed :
      (d i : ℕ) (x : ℤ) (c s e r : String)
      → shown_after "deposit.completed"
          (deposit_completed (uuid d) (uuid i) (decimal x) (text c) (text s) (text e) (text r))
        ≡ (let rest = activity_balance a (replayed l) in if i == a then rest +ℤ x else rest)
  unfolding event_rows parse_event event_type_of model_dump rows_of activity_row
  shown-deposit_completed d i x c s e r = refl

  pub shown-withdrawal_initiated :
      (w i : ℕ) (x : ℤ) (c d e : String)
      → shown_after "withdrawal.initiated"
          (withdrawal_initiated (uuid w) (uuid i) (decimal x) (text c) (text d) (text e))
        ≡ (let rest = activity_balance a (replayed l) in if i == a then rest -ℤ x else rest)
  unfolding event_rows parse_event event_type_of model_dump rows_of activity_row
  shown-withdrawal_initiated w i x c d e = refl

  pub shown-withdrawal_failed :
      (w i : ℕ) (x : ℤ) (c r e : String)
      → shown_after "withdrawal.failed"
          (withdrawal_failed (uuid w) (uuid i) (decimal x) (text c) (text r) (text e))
        ≡ (let rest = activity_balance a (replayed l) in if i == a then rest +ℤ x else rest)
  unfolding event_rows parse_event event_type_of model_dump rows_of activity_row
  shown-withdrawal_failed w i x c r e = refl

  -- The events of movements that did not happen, and of accounts, show nothing.
  pub shown-transfer_failed :
      (i f t x c r e k : Leaf)
      → shown_after "transfer.failed" (transfer_failed i f t x c r e k)
        ≡ activity_balance a (replayed l)
  unfolding event_rows parse_event event_type_of model_dump rows_of activity_row
  shown-transfer_failed i f t x c r e k = refl

  pub shown-account_opened :
      (i u s : Leaf)
      → shown_after "account.opened" (account_opened i u s) ≡ activity_balance a (replayed l)
  unfolding event_rows parse_event event_type_of model_dump rows_of activity_row
  shown-account_opened i u s = refl

  pub shown-deposit_rejected :
      (d i x c e r : Leaf)
      → shown_after "deposit.rejected" (deposit_rejected d i x c e r)
        ≡ activity_balance a (replayed l)
  unfolding event_rows parse_event event_type_of model_dump rows_of activity_row
  shown-deposit_rejected d i x c e r = refl

  pub shown-withdrawal_completed :
      (w i x c r e : Leaf)
      → shown_after "withdrawal.completed" (withdrawal_completed w i x c r e)
        ≡ activity_balance a (replayed l)
  unfolding event_rows parse_event event_type_of model_dump rows_of activity_row
  shown-withdrawal_completed w i x c r e = refl
