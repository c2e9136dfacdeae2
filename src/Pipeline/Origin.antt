-- ===== src/Pipeline/Origin.antt =====
-- Every row that a relay holds, and every message in Kafka, comes from an event that was written.
use miniwallet.Base.{
  ℕ, ◌≡◌, refl, sym, ◌∙◌, Bool, not, ◌&&◌, List, [], ◌∷◌, ◌++◌, All, All-each, All-map, IsOneOf,
  IsOneOf-append, All-imp, ◌⊎◌, inl, inr, if_intro,
}
use miniwallet.Models.{OutboxStatus}
use miniwallet.Db.{OutboxRow}
use miniwallet.Outbox.{
  Message, message, Pass, acknowledge, publish_row, publish_all, claim_batch, select_batch,
  set_publishing, contains_id, is_pending, batch_size, recover_stuck_rows, is_stuck,
  cleanup_published_rows, is_deletable,
}
use miniwallet.Outbox.Delivery.{All-filter}
use miniwallet.Outbox.Batch.{All-sort, All-take}
use miniwallet.Pipeline.{Line, AreDistinct, AreApart}

-- The row is one that was written, but for the relay's columns.
pub record IsFrom (history : List OutboxRow) (x : OutboxRow) : Type 0 where
  pub event : OutboxRow
  pub written : IsOneOf event history
  pub same_id : event.id ≡ x.id
  pub same_message : message event ≡ message x

-- The message is that of a row that was written.
pub record IsOf (history : List OutboxRow) (m : Message) : Type 0 where
  pub event : OutboxRow
  pub written : IsOneOf event history
  pub tells : message event ≡ m

IsFrom-IsOf :
    {history : List OutboxRow} (x : OutboxRow) → IsFrom history x → IsOf history (message x)
IsFrom-IsOf x h = record { event = h.event; written = h.written; tells = h.same_message }

-- What the relay writes to a row leaves its origin.
same_origin :
    {history : List OutboxRow} (x y : OutboxRow)
    → y.id ≡ x.id
    → message y ≡ message x
    → IsFrom history x
    → IsFrom history y
same_origin x y i m h = record {
  event = h.event;
  written = h.written;
  same_id = h.same_id ∙ sym i;
  same_message = h.same_message ∙ sym m;
}

module _ (history : List OutboxRow) where
  publish_row-IsFrom :
      (p : Pass) (r : OutboxRow) → IsFrom history r → IsFrom history (publish_row p r)
  unfolding publish_row
  publish_row-IsFrom p r h =
      if_intro (IsFrom history) (p.acks r) _ _ (λ _. same_origin r _ refl refl h)
        (λ _. same_origin r _ refl refl h)

  pub publish_all-IsFrom :
      (p : Pass) (rows : List OutboxRow) (log : List Message)
      → All (IsFrom history) rows
      → All (IsFrom history) (publish_all p rows log).0
  unfolding publish_all
  publish_all-IsFrom p [] log h = tt
  publish_all-IsFrom p (r ∷ rows) log (h, hs) =
      (publish_row-IsFrom p r h, publish_all-IsFrom p rows (acknowledge p r log) hs)

  pub publish_all-IsOf :
      (p : Pass) (rows : List OutboxRow) (log : List Message)
      → All (IsFrom history) rows
      → All (IsOf history) log
      → All (IsOf history) (publish_all p rows log).1
  unfolding publish_all
  publish_all-IsOf p [] log h l = l
  publish_all-IsOf p (r ∷ rows) log (h, hs) l = publish_all-IsOf p rows (acknowledge p r log) hs (
      if_intro (All (IsOf history)) (p.acks r) (message r ∷ log) log (λ _. (IsFrom-IsOf r h, l))
        (λ _. l))

  set_publishing-IsFrom : (r : OutboxRow) → IsFrom history r → IsFrom history (set_publishing r)
  set_publishing-IsFrom r h = same_origin r (set_publishing r) refl refl h

  pub claimed-IsFrom :
      (locked : ℕ → Bool) (table : List OutboxRow)
      → All (IsFrom history) table
      → All (IsFrom history) (claim_batch locked table).0
  unfolding claim_batch select_batch
  claimed-IsFrom locked table h =
      let P : OutboxRow → Type 0 = IsFrom history in
      All-map P set_publishing _ set_publishing-IsFrom (
        All-take P batch_size _ (
          All-sort P _
            (All-filter P (λ (r : OutboxRow). is_pending r.status && not (locked r.id)) table h)))

  pub claim_batch-IsFrom :
      (locked : ℕ → Bool) (table : List OutboxRow)
      → All (IsFrom history) table
      → All (IsFrom history) (claim_batch locked table).1
  unfolding claim_batch
  claim_batch-IsFrom locked table h =
      All-map (IsFrom history) _ table
        (λ r k.
          if_intro (IsFrom history) (contains_id (select_batch locked table) r.id)
            (set_publishing r) r (λ _. set_publishing-IsFrom r k) (λ _. k))
        h

  pub recover_stuck_rows-IsFrom :
      (now : ℕ) (table : List OutboxRow)
      → All (IsFrom history) table
      → All (IsFrom history) (recover_stuck_rows now table)
  unfolding recover_stuck_rows
  recover_stuck_rows-IsFrom now table h =
      All-map (IsFrom history) _ table
        (λ r k.
          if_intro (IsFrom history) (is_stuck now r) (record r { status = OutboxStatus.pending }) r
            (λ _. same_origin r _ refl refl k) (λ _. k))
        h

  pub cleanup_published_rows-IsFrom :
      (now : ℕ) (table : List OutboxRow)
      → All (IsFrom history) table
      → All (IsFrom history) (cleanup_published_rows now table)
  unfolding cleanup_published_rows
  cleanup_published_rows-IsFrom now table h =
      All-filter (IsFrom history) (λ (r : OutboxRow). not (is_deletable now r)) table h

  pub own_event : (r : OutboxRow) → IsOneOf r history → IsFrom history r
  own_event r mem = record { event = r; written = mem; same_id = refl; same_message = refl }

-- Where the rows and the messages of a state come from.
pub record IsTraced (s : Line) : Type 0 where
  pub table : All (IsFrom s.db.outbox) s.table
  pub held : All (IsFrom s.db.outbox) s.held
  pub log : All (IsOf s.db.outbox) s.log

pub IsFrom-grows :
    (events history : List OutboxRow) (x : OutboxRow)
    → IsFrom history x
    → IsFrom (events ++ history) x
IsFrom-grows events history x h = record {
  event = h.event;
  written = IsOneOf-append h.event events history h.written;
  same_id = h.same_id;
  same_message = h.same_message;
}

pub IsOf-grows :
    (events history : List OutboxRow) (m : Message) → IsOf history m → IsOf (events ++ history) m
IsOf-grows events history m h = record {
  event = h.event;
  written = IsOneOf-append h.event events history h.written;
  tells = h.tells;
}

-- The rows of a batch that a relay has claimed.
pub batch-IsFrom :
    (history held batch : List OutboxRow)
    → All (IsFrom history) held
    → All (λ (r : OutboxRow). IsOneOf r held) batch
    → All (IsFrom history) batch
batch-IsFrom history held batch h mem =
    All-imp (λ (r : OutboxRow). IsOneOf r held) (IsFrom history) batch
      (λ r k. All-each (IsFrom history) r held h k) mem

-- A row is known by its id, and by its event's.
abbrev pub AreAlike : OutboxRow → OutboxRow → Type 0
AreAlike r x = (r.id ≡ x.id) ⊎ (r.payload.event_id ≡ x.payload.event_id)

unalike : (r x : OutboxRow) → AreApart r x → AreAlike r x → ⊥
unalike r x (i, _) (inl e) = i e
unalike r x (_, k) (inr e) = k e

AreAlike-sym : (r x : OutboxRow) → AreAlike r x → AreAlike x r
AreAlike-sym r x (inl e) = inl (sym e)
AreAlike-sym r x (inr e) = inr (sym e)

pub same_row :
    (l : List OutboxRow) (r x : OutboxRow)
    → AreDistinct l
    → IsOneOf r l
    → IsOneOf x l
    → AreAlike r x
    → r ≡ x
same_row [] r x d mr mx e = absurd mr
same_row (y ∷ l) r x d (inl er) (inl ex) e = er ∙ sym ex
same_row (y ∷ l) r x (ne, d) (inl er) (inr mx) e =
    absurd (unalike y x (All-each (AreApart y) x l ne mx) (rw er at e))
same_row (y ∷ l) r x (ne, d) (inr mr) (inl ex) e =
    absurd (unalike y r (All-each (AreApart y) r l ne mr) (AreAlike-sym r y (rw ex at e)))
same_row (y ∷ l) r x (ne, d) (inr mr) (inr mx) e = same_row l r x d mr mx e
