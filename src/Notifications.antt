-- ===== src/Notifications.antt =====
-- workers/notification_consumer.py: the notices that it logs for an event. It keeps no state.
use miniwallet.Base.{String, List, [], ◌∷◌}
use miniwallet.Errors.{Result, ok, ◌>>=◌}
use miniwallet.Events.{
  Leaf, EventEnvelope, transfer_completed, transfer_failed, account_opened, seed_completed,
}
use miniwallet.Events.Parse.{Parsed, typed, parse_event}

-- A logged line, by its template and arguments.
pub data Notice : Type 0 where
  you_sent : (sender amount receiver : Leaf) → Notice
  you_received : (receiver amount sender : Leaf) → Notice
  your_transfer_failed : (sender amount receiver failure_code : Leaf) → Notice
  your_account_is_active : (user_id : Leaf) → Notice
  unrecognized : (event_type : String) → Notice

-- `match payload`
unfoldable pub notices_of : String → Parsed → List Notice
notices_of event_type (typed (transfer_completed i f t a c e k)) =
    you_sent f a t ∷ you_received t a f ∷ []
notices_of event_type (typed (transfer_failed i f t a c r e k)) = your_transfer_failed f a t r ∷ []
notices_of event_type (typed (account_opened a u s)) = your_account_is_active u ∷ []
notices_of event_type (typed (seed_completed a u x c e)) = []
notices_of event_type _ = unrecognized event_type ∷ []

-- `process`
unfoldable pub process : EventEnvelope → Result (List Notice)
unfolding notices_of
process envelope = do payload ← parse_event envelope; ok (notices_of envelope.event_type payload)
