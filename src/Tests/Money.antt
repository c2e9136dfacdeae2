-- ===== src/Tests/Money.antt =====
-- Accounts, seeds and deposits at concrete inputs.
use miniwallet.Base.{◌≡◌, some}
use miniwallet.Base.Int.{ℤ, pos}
use miniwallet.Errors.{ok}
use miniwallet.Events.{EventPayload, model_dump, transfer_failed, uuid, text, decimal}
use miniwallet.Events.Parse.{typed, parse_event, event_type_of, parse_event-model_dump}
use miniwallet.Db.{Db}
use miniwallet.Deposits.{Webhook, simulate_deposit}
use miniwallet.Tests.Data.{env_at, funded_db}

abbrev webhook : ℤ → Webhook
webhook x = record {
  account_id = 1;
  amount = x;
  currency = "USD";
  source_type = "bank_transfer";
  external_reference = "r";
}

-- The reference again, with another amount.
abbrev credited_db : Db
credited_db = (simulate_deposit (env_at 1) (webhook (pos 500)) funded_db).1

abbrev refusal : EventPayload
refusal =
    transfer_failed (uuid 100) (uuid 1) (uuid 2) (decimal (pos 500)) (text "USD")
      (text "INSUFFICIENT_BALANCE") (text "transfer") (text "k")

parse_event-model_dump_example :
    parse_event (record {
      event_id = 109;
      event_type = event_type_of refusal;
      occurred_at = 1000;
      version = "1";
      actor_id = some 7;
      payload = model_dump refusal;
    })
    ≡ ok (typed refusal)
parse_event-model_dump_example = parse_event-model_dump refusal 109 1000 (some 7)
