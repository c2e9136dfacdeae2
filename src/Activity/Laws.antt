-- ===== src/Activity/Laws.antt =====
-- The read model: an event is applied once, and shows what it says.
use miniwallet.Base.{
  ℕ, ◌≡◌, ◌≢◌, refl, ◌∙◌, Option, List, [], ◌∷◌, true, false, String, ◌==◌, if◌then◌else◌, arith,
}
use miniwallet.Base.Int.{ℤ, ◌+ℤ◌, ◌-ℤ◌}
use miniwallet.Errors.{Result, ok, raise, ◌>>=◌}
use miniwallet.Events.{
  EventEnvelope, EventPayload, uuid, decimal, text, transfer_completed, model_dump,
}
use miniwallet.Events.Parse.{Parsed, parse_event, event_type_of, parse_event-model_dump}
use miniwallet.Db.{has_account}
use miniwallet.Activity.{
  TransactionActivity, Store, activity_row, rows_of, has_row, insert_activity, insert_all, silenced,
  process, activity_balance,
}

pub insert_all-has_row :
    (event account : ℕ) (rows : List TransactionActivity) (s : Store) {s' : Store}
    → has_row event account s.activity ≡ true
    → insert_all rows s ≡ ok s'
    → has_row event account s'.activity ≡ true
unfolding insert_all insert_activity
insert_all-has_row event account [] s {s'} h e = ground (arith, h)
insert_all-has_row event account (t ∷ l) s {s'} h e =
    ground
      (arith, insert_all-has_row event account l (record s { activity = t ∷ s.activity }) {s' = s'})

insert_all-twice :
    (rows : List TransactionActivity) (s s' : Store)
    → insert_all rows s ≡ ok s'
    → silenced s' (insert_all rows s') ≡ ok s'
unfolding insert_all insert_activity
insert_all-twice [] s s' h = refl
insert_all-twice (t ∷ l) s s' h = ground (
  arith,
  insert_all-has_row t.event_id t.account_id l (record s { activity = t ∷ s.activity }) {s' = s'},
)

silenced-twice :
    (rows : List TransactionActivity) (s s' : Store) (x : Result Store)
    → insert_all rows s ≡ x
    → silenced s x ≡ ok s'
    → silenced s' (insert_all rows s') ≡ ok s'
silenced-twice rows s s' (ok s₁) h e = insert_all-twice rows s s' (h ∙ e)
silenced-twice rows s s' (raise err) h e = ground (arith, h, e)

rows-twice :
    (x : Result (List TransactionActivity)) (s s' : Store)
    → (x >>= λ rows. silenced s (insert_all rows s)) ≡ ok s'
    → (x >>= λ rows. silenced s' (insert_all rows s')) ≡ ok s'
rows-twice (ok rows) s s' h = silenced-twice rows s s' (insert_all rows s) refl h
rows-twice (raise e) s s' h = absurd (ground (arith, h))

parsed-twice :
    (envelope : EventEnvelope) (x : Result Parsed) (s s' : Store)
    → (x >>= λ p. rows_of envelope p >>= λ rows. silenced s (insert_all rows s)) ≡ ok s'
    → (x >>= λ p. rows_of envelope p >>= λ rows. silenced s' (insert_all rows s')) ≡ ok s'
parsed-twice envelope (ok p) s s' h = rows-twice (rows_of envelope p) s s' h
parsed-twice envelope (raise e) s s' h = absurd (ground (arith, h))

-- Replaying an event that the consumer has processed changes nothing in the read model.
process_twice :
    (envelope : EventEnvelope) (s : Store) {s' : Store}
    → process envelope s ≡ ok s'
    → process envelope s' ≡ ok s'
unfolding process
process_twice envelope s {s'} h = parsed-twice envelope (parse_event envelope) s s' h

-- The envelope of a transfer's event, as `publish_event` makes it.
abbrev pub completed_transfer : (i f t : ℕ) → ℤ → String → EventPayload
completed_transfer i f t x key =
    transfer_completed (uuid i) (uuid f) (uuid t) (decimal x) (text "USD") (text "transfer")
      (text key)

abbrev pub envelope_of : EventPayload → (event_id occurred_at : ℕ) → Option ℕ → EventEnvelope
envelope_of p event_id occurred_at actor = record {
  event_id = event_id;
  event_type = event_type_of p;
  occurred_at = occurred_at;
  version = "1";
  actor_id = actor;
  payload = model_dump p;
}

-- What the read model shows after a transfer, for each account.
abbrev pub Shows : (f t : ℕ) → ℤ → Store → Result Store → Type 0
Shows f t x s (ok s') =
    (a : ℕ)
    → activity_balance a s'.activity ≡ (
        if a == f
        then activity_balance a s.activity -ℤ x
        else if a == t
        then activity_balance a s.activity +ℤ x
        else activity_balance a s.activity)
Shows f t x s (raise e) = ⊥

-- The event of a transfer between two known accounts, seen for the first time, is applied, and
-- moves the amount between the balances that the read model shows, as the transfer did.
pub process-Shows :
    (i f t : ℕ) (x : ℤ) (event_id occurred_at : ℕ) (actor : Option ℕ) (key : String) (s : Store)
    → f ≢ t
    → has_account f s.db ≡ true
    → has_account t s.db ≡ true
    → has_row event_id f s.activity ≡ false
    → has_row event_id t s.activity ≡ false
    → Shows f t x s
        (process (envelope_of (completed_transfer i f t x key) event_id occurred_at actor) s)
unfolding process rows_of activity_row insert_all insert_activity
process-Shows i f t x event_id occurred_at actor key s ne hf ht nf nt =
    let apart : (f == t) ≡ false = ground arith in
    let same : (event_id == event_id) ≡ true = ground arith in
    rw
      (
        parse_event-model_dump (completed_transfer i f t x key) event_id occurred_at actor,
        nf,
        hf,
        apart,
        same,
        nt,
        ht,
      )
      (λ a. ground arith)
