-- ===== src/Tests/Pipeline.antt =====
-- An account that is opened and seeded, two events that go through the outbox and Kafka, and the
-- consumer that reads one of them twice.
use miniwallet.Base.{
  ℕ, ◌≡◌, ◌≢◌, ◌⊎◌, refl, String, true, false, Option, some, [], ◌∷◌, str_eq, inl, inr, arith,
  if◌then◌else◌, All,
}
use mathlib.Core.List.{Mem}
use miniwallet.Events.{EventEnvelope, model_dump}
use miniwallet.Events.Parse.{parse_event}
use miniwallet.Db.{
  Db, OutboxRow, system_account_id, has_account, insert_user, insert_account, insert_ledger_entry,
  publish_event,
}
use miniwallet.Base.Int.{pos}
use miniwallet.Ledger.{get_balance}
use miniwallet.Accounts.{open_account, seed, write_seed, find_account}
use miniwallet.Activity.{
  activity_row, rows_of, insert_activity, insert_all, process, activity_balance,
}
use miniwallet.Activity.Readable.{IsReadable}
use miniwallet.Consumers.{handle_message}
use miniwallet.Outbox.{
  message, select_batch, claim_batch, publish_row, publish_all, confirm_batch, contains_id,
}
use miniwallet.System as System
use miniwallet.System.{initial}
use miniwallet.Pipeline.{
  Line, started, Run, starts, steps, writes, claims, confirms, reads, after_reading,
}
use miniwallet.Pipeline.Relaying.{is_waiting, every_event_accounted}
use miniwallet.Pipeline.Reading.{ReadsJson, Reach-IsReadable}
use miniwallet.Pipeline.Arrival.{no_dead_letters, chain_catches_up}
use miniwallet.Tests.Data.{env_at, digest}
use miniwallet.Tests.ReadModel.{opened_row, seed_row}
use miniwallet.Tests.Relay.{good}
use miniwallet.Tests.System.{new_user, seeded_db, seeded_db-reached}

-- JSON for the two events, by their types.
abbrev dumps : EventEnvelope → String
dumps e = e.event_type

abbrev loads : String → Option EventEnvelope
loads t = if str_eq t "account.opened" then some opened_row.payload else some seed_row.payload

abbrev int : String → Option ℕ
int t = some 0

abbrev str : ℕ → String
str n = "0"

abbrev registered_db : Db
registered_db = record initial { users = new_user ∷ [] }

abbrev opened_db : Db
opened_db = (open_account (env_at 1) 7 registered_db).1

abbrev written : Line
written = record started { db = seeded_db; table = seed_row ∷ opened_row ∷ [] }

abbrev claimed : Line
claimed = record written {
  table = (claim_batch (λ _. false) written.table).1;
  held = (claim_batch (λ _. false) written.table).0;
}

abbrev sent : Line
sent = record claimed {
  table = confirm_batch (publish_all good claimed.held []).0 claimed.table;
  log = (publish_all good claimed.held []).1;
}

abbrev read_by : Line → OutboxRow → Line
read_by s r = after_reading digest dumps loads int str s (message r)

abbrev read : Line
read = read_by (read_by (read_by sent seed_row) opened_row) seed_row

written-reached : Run digest dumps loads int str written
unfolding insert_user has_account open_account insert_account seed write_seed find_account
    insert_ledger_entry publish_event
written-reached =
    steps
      (steps
        (steps starts (writes {db' = registered_db} [] (System.registers new_user refl) refl tt))
        (writes {db' = opened_db} (opened_row ∷ []) (System.opens (env_at 1) 7) refl (tt, tt)))
      (writes {db' = seeded_db} (seed_row ∷ []) (System.seeds (env_at 2) 100 (pos 500) "k" 7) refl
        ((((λ e. ground (arith, e)), (λ e. ground (arith, e))), tt), (tt, tt)))

-- Both events are sent, and the consumer reads the seed's twice.
read-reached : Run digest dumps loads int str read
unfolding has_account open_account insert_account seed write_seed find_account insert_ledger_entry
    publish_event select_batch claim_batch publish_row publish_all confirm_batch
read-reached =
    steps
      (steps
        (steps
          (steps (steps written-reached (claims (λ _. false)))
            (confirms good claimed.held (inl refl, (inr (inl refl), tt))))
          (reads (message seed_row) (inl refl)))
        (reads (message opened_row) (inr (inl refl))))
      (reads (message seed_row) (inl refl))

loads-dumps : ReadsJson digest dumps loads int str seeded_db.outbox
unfolding open_account insert_account seed write_seed find_account insert_ledger_entry publish_event
    has_account
loads-dumps r (inl e) = rw e refl
loads-dumps r (inr (inl e)) = rw e refl
loads-dumps r (inr (inr e)) = absurd e

no_dead_letters_example : read.sent ≡ []
no_dead_letters_example = no_dead_letters digest dumps loads int str read-reached loads-dumps

chain_catches_up_example : activity_balance 100 read.activity ≡ get_balance seeded_db 100
unfolding has_account open_account insert_account seed write_seed find_account insert_ledger_entry
    publish_event select_batch claim_batch publish_row publish_all confirm_batch handle_message
    process parse_event model_dump rows_of activity_row insert_activity insert_all
chain_catches_up_example =
    chain_catches_up digest dumps loads int str 100 read-reached loads-dumps (refl, (refl, tt)) refl
      (inl refl, (inr (inl refl), tt)) not_the_system
  where
    not_the_system : 100 ≢ system_account_id
    not_the_system h = ground (arith, h)

every_event_accounted_example :
    Mem (message seed_row) written.log
    ⊎ ((is_waiting written.table seed_row.id ≡ true)
        ⊎ (contains_id written.given_up seed_row.id ≡ true))
unfolding has_account open_account insert_account seed write_seed find_account insert_ledger_entry
    publish_event
every_event_accounted_example =
    every_event_accounted digest dumps loads int str seed_row written-reached (inl refl)

Reach-IsReadable_example : All (IsReadable seeded_db) seeded_db.outbox
Reach-IsReadable_example = Reach-IsReadable digest seeded_db-reached
