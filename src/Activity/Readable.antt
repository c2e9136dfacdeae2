-- ===== src/Activity/Readable.antt =====
-- What a transaction adds to the outbox: events that the activity consumer takes without an error.
use mathlib.Core.List.{append_assoc, append_cancel_right}
use miniwallet.Base.{
  ℕ, ◌≡◌, ◌≢◌, refl, sym, ap, ◌∙◌, String, Option, List, [], ◌∷◌, ◌++◌, true, All, All-append,
  IsOneOf, inl, inr,
}
use miniwallet.Base.Int.{ℤ}
use miniwallet.Errors.{ok, ◌>>=◌}
use miniwallet.Events.{
  Leaf, uuid, decimal, text, model_dump, transfer_completed, transfer_failed, account_opened,
  seed_completed, deposit_completed, deposit_rejected, withdrawal_initiated, withdrawal_completed,
  withdrawal_failed,
}
use miniwallet.Events.Parse.{parse_event}
use miniwallet.Models.{OutboxStatus}
use miniwallet.Db.{Db, Env, OutboxRow, outbox_row, has_account}
use miniwallet.Activity.{TransactionActivity, topics, activity_row, rows_of}
use miniwallet.Activity.Replay.{event_rows}

-- Rows of one event for accounts that differ and are known.
abbrev pub AreInsertable : Db → ℕ → List TransactionActivity → Type 0
AreInsertable db event [] = Unit
AreInsertable db event (t ∷ l) =
    (t.event_id ≡ event)
    × (has_account t.account_id db ≡ true)
    × All (λ (u : TransactionActivity). t.account_id ≢ u.account_id) l
    × AreInsertable db event l

-- An event of a topic of the consumer, that parses, and whose rows the read model can take.
pub record IsReadable (db : Db) (r : OutboxRow) : Type 0 where
  pub subscribed : IsOneOf r.topic topics
  pub read : (parse_event r.payload >>= rows_of r.payload) ≡ ok (event_rows r.payload)
  pub insertable : AreInsertable db r.payload.event_id (event_rows r.payload)

-- The accounts of the first are in the second.
pub record KeepsAccounts (db db' : Db) : Type 0 where
  pub keeps : (i : ℕ) → has_account i db ≡ true → has_account i db' ≡ true

pub record Emits (db db' : Db) : Type 0 where
  pub events : List OutboxRow
  pub outbox : db'.outbox ≡ events ++ db.outbox
  pub waiting : All (λ (r : OutboxRow). r.status ≡ OutboxStatus.pending) events
  pub readable : All (IsReadable db') events
  pub accounts : KeepsAccounts db db'

pub same_accounts : {db db' : Db} → db'.accounts ≡ db.accounts → KeepsAccounts db db'
unfolding has_account
same_accounts e = record { keeps = λ i h. rw e h }

pub Emits-nothing : {db db' : Db} → db'.outbox ≡ db.outbox → KeepsAccounts db db' → Emits db db'
Emits-nothing e k = record { events = []; outbox = e; waiting = tt; readable = tt; accounts = k }

pub AreInsertable-keeps :
    (db db' : Db) (event : ℕ) (rows : List TransactionActivity)
    → KeepsAccounts db db'
    → AreInsertable db event rows
    → AreInsertable db' event rows
AreInsertable-keeps db db' event [] k h = tt
AreInsertable-keeps db db' event (t ∷ l) k (e, known, apart, rest) =
    (e, k.keeps t.account_id known, apart, AreInsertable-keeps db db' event l k rest)

pub IsReadable-keeps :
    {db db' : Db} {r : OutboxRow} → KeepsAccounts db db' → IsReadable db r → IsReadable db' r
IsReadable-keeps {db} {db'} {r} k h = record {
  subscribed = h.subscribed;
  read = h.read;
  insertable = AreInsertable-keeps db db' r.payload.event_id (event_rows r.payload) k h.insertable;
}

pub All-IsReadable-keeps :
    {db db' : Db} (l : List OutboxRow)
    → KeepsAccounts db db'
    → All (IsReadable db) l
    → All (IsReadable db') l
All-IsReadable-keeps [] k h = tt
All-IsReadable-keeps (r ∷ l) k (h, hs) = (IsReadable-keeps k h, All-IsReadable-keeps l k hs)

pub KeepsAccounts-trans :
    {db mid db' : Db} → KeepsAccounts db mid → KeepsAccounts mid db' → KeepsAccounts db db'
KeepsAccounts-trans p q = record { keeps = λ i h. q.keeps i (p.keeps i h) }

-- One transaction after another.
pub Emits-trans : {db mid db' : Db} → Emits db mid → Emits mid db' → Emits db db'
Emits-trans {db} p q = record {
  events = q.events ++ p.events;
  outbox = q.outbox ∙ ap (λ l. q.events ++ l) p.outbox ∙ sym (append_assoc q.events p.events _);
  waiting = All-append _ q.events p.events q.waiting p.waiting;
  readable =
      All-append _ q.events p.events q.readable
        (All-IsReadable-keeps p.events q.accounts p.readable);
  accounts = KeepsAccounts-trans p.accounts q.accounts;
}

-- The events are what the outbox has more.
pub Emits-events :
    {db db' : Db} (e : Emits db db') (events : List OutboxRow)
    → db'.outbox ≡ events ++ db.outbox
    → e.events ≡ events
Emits-events {db} e events h = append_cancel_right e.events events db.outbox (sym e.outbox ∙ h)

pub Emits-one :
    {db db' : Db} (r : OutboxRow)
    → db'.outbox ≡ r ∷ db.outbox
    → r.status ≡ OutboxStatus.pending
    → KeepsAccounts db db'
    → IsReadable db' r
    → Emits db db'
Emits-one r e w k h = record {
  events = r ∷ [];
  outbox = e;
  waiting = (w, tt);
  readable = (h, tt);
  accounts = k;
}

-- The events of the services. Those with rows name accounts that the tables' foreign keys know.
module _ (env : Env) (actor id : Option ℕ) (db : Db) where
  pub IsReadable-transfer_completed :
      (i f t : ℕ) (x : ℤ) (c e k : String)
      → f ≢ t
      → has_account f db ≡ true
      → has_account t db ≡ true
      → IsReadable db (
          outbox_row env "transfer.events" "transfer.completed"
            (transfer_completed (uuid i) (uuid f) (uuid t) (decimal x) (text c) (text e) (text k))
            actor
            id)
  unfolding event_rows parse_event model_dump rows_of activity_row
  IsReadable-transfer_completed i f t x c e k ne hf ht = record {
    subscribed = inl refl;
    read = refl;
    insertable = (refl, hf, (ne, tt), (refl, ht, tt, tt));
  }

  pub IsReadable-seed_completed :
      (i u : ℕ) (x : ℤ) (c e : String)
      → has_account i db ≡ true
      → IsReadable db (
          outbox_row env "account.events" "seed.completed"
            (seed_completed (uuid i) (uuid u) (decimal x) (text c) (text e))
            actor
            id)
  unfolding event_rows parse_event model_dump rows_of activity_row
  IsReadable-seed_completed i u x c e h = record {
    subscribed = inr (inl refl);
    read = refl;
    insertable = (refl, h, tt, tt);
  }

  pub IsReadable-deposit_completed :
      (d i : ℕ) (x : ℤ) (c s e r : String)
      → has_account i db ≡ true
      → IsReadable db (
          outbox_row env "deposit.events" "deposit.completed"
            (deposit_completed (uuid d) (uuid i) (decimal x) (text c) (text s) (text e) (text r))
            actor
            id)
  unfolding event_rows parse_event model_dump rows_of activity_row
  IsReadable-deposit_completed d i x c s e r h = record {
    subscribed = inr (inr (inl refl));
    read = refl;
    insertable = (refl, h, tt, tt);
  }

  pub IsReadable-withdrawal_initiated :
      (w i : ℕ) (x : ℤ) (c d e : String)
      → has_account i db ≡ true
      → IsReadable db (
          outbox_row env "withdrawal.events" "withdrawal.initiated"
            (withdrawal_initiated (uuid w) (uuid i) (decimal x) (text c) (text d) (text e))
            actor
            id)
  unfolding event_rows parse_event model_dump rows_of activity_row
  IsReadable-withdrawal_initiated w i x c d e h = record {
    subscribed = inr (inr (inr (inl refl)));
    read = refl;
    insertable = (refl, h, tt, tt);
  }

  pub IsReadable-withdrawal_failed :
      (w i : ℕ) (x : ℤ) (c r e : String)
      → has_account i db ≡ true
      → IsReadable db (
          outbox_row env "withdrawal.events" "withdrawal.failed"
            (withdrawal_failed (uuid w) (uuid i) (decimal x) (text c) (text r) (text e))
            actor
            id)
  unfolding event_rows parse_event model_dump rows_of activity_row
  IsReadable-withdrawal_failed w i x c r e h = record {
    subscribed = inr (inr (inr (inl refl)));
    read = refl;
    insertable = (refl, h, tt, tt);
  }

  pub IsReadable-transfer_failed :
      (i f t x c r e k : Leaf)
      → IsReadable db (
          outbox_row env "transfer.events" "transfer.failed"
            (transfer_failed i f t x c r e k)
            actor
            id)
  unfolding event_rows parse_event model_dump rows_of activity_row
  IsReadable-transfer_failed i f t x c r e k = record {
    subscribed = inl refl;
    read = refl;
    insertable = tt;
  }

  pub IsReadable-account_opened :
      (i u s : Leaf)
      → IsReadable db
          (outbox_row env "account.events" "account.opened" (account_opened i u s) actor id)
  unfolding event_rows parse_event model_dump rows_of activity_row
  IsReadable-account_opened i u s = record {
    subscribed = inr (inl refl);
    read = refl;
    insertable = tt;
  }

  pub IsReadable-deposit_rejected :
      (d i x c e r : Leaf)
      → IsReadable db (
          outbox_row env "deposit.events" "deposit.rejected"
            (deposit_rejected d i x c e r)
            actor
            id)
  unfolding event_rows parse_event model_dump rows_of activity_row
  IsReadable-deposit_rejected d i x c e r = record {
    subscribed = inr (inr (inl refl));
    read = refl;
    insertable = tt;
  }

  pub IsReadable-withdrawal_completed :
      (w i x c r e : Leaf)
      → IsReadable db (
          outbox_row env "withdrawal.events" "withdrawal.completed"
            (withdrawal_completed w i x c r e)
            actor
            id)
  unfolding event_rows parse_event model_dump rows_of activity_row
  IsReadable-withdrawal_completed w i x c r e = record {
    subscribed = inr (inr (inr (inl refl)));
    read = refl;
    insertable = tt;
  }
