-- ===== src/Tests/Records.antt =====
-- The audit trail, the backfill and the pages of the activity at concrete inputs.
use miniwallet.Base.{
  ℕ, ◌≡◌, refl, String, false, none, some, List, [], ◌∷◌, length, char_count, arith, All, All-intro,
  IsOneOf, inl, inr,
}
use miniwallet.Errors.{raise, runtime_error}
use miniwallet.Events.{EventEnvelope, uuid, text, account_opened, model_dump}
use miniwallet.Events.Parse.{parse_event, event_type_of}
use miniwallet.Activity.Laws.{envelope_of}
use miniwallet.Audit.{AuditEvent, audit_row, insert_audit_event, process, resource_text, rows_for}
use miniwallet.Audit.Laws.{IsUnique, audit_exactly_once}
use miniwallet.Backfill.{backfill}
use miniwallet.Backfill.Laws.{IsStill, backfill_once}
use miniwallet.Db.{Db}
use miniwallet.Activity.{TransactionActivity}
use miniwallet.Activity.History.{Query, to_item, get_transactions, matches}
use miniwallet.Activity.Pages.{pages}
use miniwallet.Activity.Asked.{IsAsked}
use miniwallet.Activity.Falling.{AreApart, IsFalling}
use miniwallet.Activity.Coverage.{IsShown, pages_show_asked}
use miniwallet.Models.{credit}
use miniwallet.Base.Int.{pos}
use miniwallet.Tests.Data.{env_at, funded_db}

abbrev opened_event : EventEnvelope
opened_event = envelope_of (account_opened (uuid 2) (uuid 2) (text "active")) 900 1000 none

abbrev recorded : List AuditEvent
recorded = audit_row opened_event (some 2) ∷ []

audit_exactly_once_example : (length (rows_for 900 recorded) ≡ 1) × IsUnique recorded
unfolding process parse_event model_dump resource_text insert_audit_event event_type_of
audit_exactly_once_example =
    audit_exactly_once opened_event [] {l' = recorded} (λ i. omega arith) refl

abbrev derived : String → ℕ
derived s = char_count s

-- The backfill has run.
abbrev filled_db : Db
filled_db = (backfill derived env_at false funded_db).1

backfill_once_example : backfill derived env_at false filled_db ≡ (raise runtime_error, filled_db)
unfolding backfill
backfill_once_example =
    backfill_once derived env_at env_at false funded_db filled_db refl refl
      (All-intro (IsStill filled_db.outbox) filled_db.outbox (λ r mem. (r, mem, refl, refl)))

abbrev activity_at : ℕ → ℕ → ℕ → TransactionActivity
activity_at i account t = record {
  event_id = i;
  account_id = account;
  direction = credit;
  amount = pos 50000;
  currency = "USD";
  entry_type = "seed";
  reference_id = none;
  occurred_at = t;
}

-- A row of another account has the time of one of the first's.
abbrev four_rows : List TransactionActivity
four_rows = activity_at 3 1 30 ∷ activity_at 4 2 30 ∷ activity_at 1 1 10 ∷ activity_at 2 1 20 ∷ []

abbrev of_first : Query
of_first = record { account_id = 1; from_date = none; to_date = none; entry_type = none }

four_rows-AreApart : AreApart four_rows
four_rows-AreApart = (
  ((λ e. ground (arith, e)), ((λ e. ground (arith)), ((λ e. ground (arith)), tt))),
  (
    ((λ e. ground (arith, e)), ((λ e. ground (arith, e)), tt)),
    (((λ e. ground (arith)), tt), (tt, tt)),
  ),
)

pages_show_asked_example :
    let items = pages 2 2 of_first four_rows in
    IsOneOf (to_item (activity_at 1 1 10)) items
    × All (IsShown of_first four_rows) items
    × IsFalling items
unfolding get_transactions matches
pages_show_asked_example =
    pages_show_asked 2 2 of_first four_rows (activity_at 1 1 10) four_rows-AreApart (omega arith)
      (inr (inr (inl refl))) asked
  where
    asked : IsAsked of_first (activity_at 1 1 10)
    asked = record {
      account = refl;
      from = λ d e. ground (arith, e);
      upto = λ d e. ground (arith, e);
      kind = λ t e n. ground (arith, e);
    }
