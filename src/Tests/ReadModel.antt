-- ===== src/Tests/ReadModel.antt =====
-- A consumer that catches up with a seeded account, and gets the seed's event twice.
use miniwallet.Base.{◌≡◌, refl, none, some, [], ◌∷◌, inl}
use miniwallet.Base.Int.{pos}
use miniwallet.Events.{
  uuid, decimal, text, transfer_completed, account_opened, seed_completed, model_dump,
}
use miniwallet.Events.Parse.{parse_event}
use miniwallet.Models.{credit}
use miniwallet.Db.{
  OutboxRow, outbox_row, has_account, insert_account, insert_ledger_entry, publish_event,
}
use miniwallet.Accounts.{open_account, seed, write_seed, find_account}
use miniwallet.Activity.{
  TransactionActivity, Store, activity_row, rows_of, insert_activity, insert_all, process,
}
use miniwallet.Activity.CatchUp.{Consumes, begins, applies, redelivers}
use miniwallet.Notifications.{you_sent, you_received}
use miniwallet.Notifications
use miniwallet.Errors.{ok}
use miniwallet.Tests.Data.{env_at}
use miniwallet.Tests.System.{seeded_db}

abbrev pub opened_row : OutboxRow
opened_row =
    outbox_row (env_at 1) "account.events" "account.opened"
      (account_opened (uuid 100) (uuid 7) (text "active")) (some 7) none

abbrev pub seed_row : OutboxRow
seed_row =
    outbox_row (env_at 2) "account.events" "seed.completed"
      (seed_completed (uuid 100) (uuid 7) (decimal (pos 500)) (text "USD") (text "seed")) (some 7)
      none

abbrev empty_store : Store
empty_store = record { db = seeded_db; activity = [] }

abbrev shown_row : TransactionActivity
shown_row = record {
  event_id = 209;
  account_id = 100;
  direction = credit;
  amount = pos 500;
  currency = "USD";
  entry_type = "seed";
  reference_id = none;
  occurred_at = 2000;
}

abbrev full_store : Store
full_store = record { db = seeded_db; activity = shown_row ∷ [] }

consumed : Consumes empty_store (seed_row ∷ opened_row ∷ []) full_store
unfolding parse_event model_dump rows_of activity_row insert_activity insert_all process has_account
    open_account insert_account seed write_seed find_account insert_ledger_entry publish_event
consumed =
    redelivers seed_row
      (applies seed_row {rows = shown_row ∷ []}
        (applies opened_row {rows = []} (begins refl) refl refl) refl refl)
      (inl refl) refl

-- The event of a completed transfer.
abbrev completed_row : OutboxRow
completed_row =
    outbox_row (env_at 3) "transfer.events" "transfer.completed"
      (transfer_completed (uuid 9) (uuid 100) (uuid 101) (decimal (pos 5)) (text "USD")
        (text "completed") (text "k"))
      (some 7) none

-- A completed transfer is told to both sides.
both_are_told :
    Notifications.process completed_row.payload
    ≡ ok (
        you_sent (uuid 100) (decimal (pos 5)) (uuid 101)
        ∷ you_received (uuid 101) (decimal (pos 5)) (uuid 100)
        ∷ [])
unfolding parse_event model_dump Notifications.notices_of Notifications.process
both_are_told = refl
