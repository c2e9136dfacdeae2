-- ===== src/Backfill.antt =====
-- management/backfill_events.py: outbox rows for the accounts, transfers and seeds that were there
-- before events were. Each row is a transaction of its own. `uuid.uuid5` is a parameter.
pub mod Laws
use miniwallet.Base.{
  ℕ, ◌+◌, ◌≡◌, refl, String, Bool, true, false, Option, none, some, List, [], ◌∷◌, ◌++◌, filter,
  find?, map, any, sort_by, not, str_eq, ◌<>◌, ◌==◌, ◌&&◌, if◌then◌else◌,
}
use miniwallet.Errors.{Result, ok, raise, runtime_error}
use miniwallet.Events.{
  Leaf, uuid, decimal, text, EventPayload, account_opened, transfer_completed, transfer_failed,
  seed_completed,
}
use miniwallet.Uuid.{str_uuid}
use miniwallet.Models.{Account, Transfer, TransferStatus, LedgerEntry, Direction, debit, credit}
use miniwallet.Db.{Db, Env, OutboxRow, publish_event}

-- One event to publish: topic, type, payload and identifier.
pub record Draft : Type 0 where
  pub topic : String
  pub event_type : String
  pub payload : EventPayload
  pub event_id : ℕ

-- `str(…)` of a UUID, and of None.
abbrev str_user : Option ℕ → Leaf
str_user none = text "None"
str_user (some u) = uuid u

abbrev pub is_user_account : Account → Bool
is_user_account a = elim a.user_id [ none ↦ false | some _ ↦ true ]

-- `failure_code or "UNKNOWN"`
abbrev or_unknown : Option String → String
or_unknown none = "UNKNOWN"
or_unknown (some c) = if str_eq c "" then "UNKNOWN" else c

abbrev is_credit : Direction → Bool
is_credit credit = true
is_credit debit = false

abbrev is_seed_credit : LedgerEntry → Bool
is_seed_credit e = str_eq e.entry_type "seed" && is_credit e.direction

abbrev pub is_opened : OutboxRow → Bool
is_opened r = str_eq r.event_type "account.opened"

-- Each draft with what its own transaction draws.
unfoldable pub publish_drafts : (ℕ → Env) → ℕ → List Draft → Db → Db
publish_drafts envs n [] db = db
publish_drafts envs n (d ∷ l) db =
    publish_drafts envs (n + 1) l
      (publish_event (envs n) d.topic d.event_type d.payload none (some d.event_id) db)

module _ (uuid5 : String → ℕ) where
  -- `uuid5` is in the namespace BACKFILL_NAMESPACE.
  abbrev pub backfill_event_id : String → ℕ → ℕ
  backfill_event_id entity_type entity_id = uuid5 (entity_type <> ":" <> str_uuid entity_id)

  abbrev pub account_draft : Account → Draft
  account_draft a = record {
    topic = "account.events";
    event_type = "account.opened";
    payload = account_opened (uuid a.id) (str_user a.user_id) (text a.status);
    event_id = backfill_event_id "account.opened" a.id;
  }

  abbrev of_status : Transfer → TransferStatus → Draft
  of_status t TransferStatus.completed = record {
    topic = "transfer.events";
    event_type = "transfer.completed";
    payload =
        transfer_completed (uuid t.id) (uuid t.from_account_id) (uuid t.to_account_id)
          (decimal t.amount) (text "USD") (text "transfer") (text t.idempotency_key);
    event_id = backfill_event_id "transfer.completed" t.id;
  }
  of_status t TransferStatus.failed = record {
    topic = "transfer.events";
    event_type = "transfer.failed";
    payload =
        transfer_failed (uuid t.id) (uuid t.from_account_id) (uuid t.to_account_id)
          (decimal t.amount) (text "USD") (text (or_unknown t.failure_code)) (text "transfer")
          (text t.idempotency_key);
    event_id = backfill_event_id "transfer.failed" t.id;
  }

  abbrev pub transfer_draft : Transfer → Draft
  transfer_draft t = of_status t t.status

  abbrev owner : Db → ℕ → Option Account
  owner db i = find? (λ (a : Account). a.id == i) db.accounts

  -- The join: an entry whose account is there, with the account's user.
  abbrev of_owner : LedgerEntry → Option Account → List Draft
  of_owner e none = []
  of_owner e (some a) =
      record {
        topic = "account.events";
        event_type = "seed.completed";
        payload =
            seed_completed (uuid e.account_id) (str_user a.user_id) (decimal e.amount) (text "USD")
              (text "seed");
        event_id = backfill_event_id "seed.completed" e.id;
      }
      ∷ []

  abbrev seed_drafts : Db → List LedgerEntry → List Draft
  seed_drafts db [] = []
  seed_drafts db (e ∷ l) = of_owner e (owner db e.account_id) ++ seed_drafts db l

  -- The three queries and loops: accounts, transfers, seeds, each ORDER BY created_at.
  unfoldable pub drafts : Db → List Draft
  drafts db =
      map account_draft
        (sort_by (λ (a : Account). a.created_at) (filter is_user_account db.accounts))
      ++ (map transfer_draft (sort_by (λ (t : Transfer). t.created_at) db.transfers)
          ++ seed_drafts db (
              sort_by (λ (e : LedgerEntry). e.created_at)
                (filter is_seed_credit db.ledger_entries)))

  -- `backfill`
  unfoldable pub backfill : (ℕ → Env) → Bool → Db → Result (Unit {0}) × Db
  unfolding drafts publish_drafts
  backfill envs force db =
      if not force && any is_opened db.outbox
      then (raise runtime_error, db)
      else (ok tt, publish_drafts envs 0 (drafts db) db)
