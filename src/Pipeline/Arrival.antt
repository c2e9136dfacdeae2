-- ===== src/Pipeline/Arrival.antt =====
-- The end of the way: what the read model shows when nothing is waiting any more.
use mathlib.Core.Logic.Or
use mathlib.Core.List.{
  Mem, Mem-prop, Perm, Nodup, Nodup-nil, Nodup-cons, mem-cons, mem-cons_self, mem-cons_of_mem,
  not-mem-nil, perm_ext_iff_of_Nodup,
}
use miniwallet.Base.{
  ℕ, ◌≡◌, ◌≢◌, refl, ◌∙◌, ap, true, false, String, Option, List, [], ◌∷◌, All, All-each, All-intro,
  IsOneOf, inl, inr, arith,
}
use miniwallet.Schemas.{HashInput}
use miniwallet.Events.{EventEnvelope}
use miniwallet.Db.{OutboxRow, system_account_id}
use miniwallet.Ledger.{get_balance}
use miniwallet.Outbox.{Message, message, is_published}
use miniwallet.Activity.{activity_balance}
use miniwallet.Activity.Replay.{shown}
use miniwallet.Activity.CatchUp.{Consumes-balance}
use miniwallet.Activity.Orders.{Perm-balance}
use miniwallet.System.{Reach-Mirrors}
use miniwallet.Pipeline.{Line, Run, AreDistinct, AreApart, started, store}
use miniwallet.Pipeline.Origin.{IsOf, same_row}
use miniwallet.Pipeline.Traces.{Run-AreDistinct, Run-Reach}
use miniwallet.Pipeline.Relaying.{is_waiting, every_event_accounted}
use miniwallet.Pipeline.Reading.{ReadsJson, IsAbreast, Run-IsAbreast}

IsOneOf-Mem : (r : OutboxRow) (l : List OutboxRow) → IsOneOf r l → Mem r l
IsOneOf-Mem r [] h = absurd h
IsOneOf-Mem r (x ∷ l) (inl e) = rw e mem-cons_self
IsOneOf-Mem r (x ∷ l) (inr h) = mem-cons_of_mem x (IsOneOf-Mem r l h)

-- What each row of a list has, one of its members has, if it is a proposition.
Mem-elim :
    {A : Type 0} (P : A → Type 0) (Q : Type 0) (a : A) (l : List A)
    → IsProp Q
    → All P l
    → (P a → Q)
    → Mem a l
    → Q
Mem-elim P Q a [] prop h f m = absurd (not-mem-nil m)
Mem-elim P Q a (x ∷ l) prop (h, hs) f m =
    Or.elim prop (mem-cons.0 m) (λ e. f (rw e h)) (Mem-elim P Q a l prop hs f)

apart-absent : (r : OutboxRow) (l : List OutboxRow) → All (AreApart r) l → Mem r l → ⊥
apart-absent r l h = Mem-elim (AreApart r) ⊥ r l (hlevel) h (λ (i, _). i refl)

AreDistinct-Nodup : (l : List OutboxRow) → AreDistinct l → Nodup l
AreDistinct-Nodup [] d = Nodup-nil
AreDistinct-Nodup (r ∷ l) (apart, d) = Nodup-cons.1 (apart-absent r l apart, AreDistinct-Nodup l d)

none_waiting :
    (i : ℕ) (table : List OutboxRow)
    → All (λ (r : OutboxRow). is_published r.status ≡ true) table
    → is_waiting table i ≡ false
none_waiting i [] h = refl
none_waiting i (r ∷ table) (h, hs) = ground (arith, h, none_waiting i table hs)

module _ (sha256 : HashInput → String) (json_dumps : EventEnvelope → String)
    (json_loads : String → Option EventEnvelope) (int : String → Option ℕ) (str : ℕ → String) where
  abbrev Runs : Line → Type 0
  Runs s = Run sha256 json_dumps json_loads int str s

  abbrev IsRead : Line → Type 0
  IsRead s = ReadsJson sha256 json_dumps json_loads int str s.db.outbox

  -- The consumer never sends a message back to its topic, nor to the dead letter topic: where
  -- `json.loads` reads what `json.dumps` writes, it takes every message that the relay has sent, in
  -- whatever order and however often it gets them.
  pub no_dead_letters : {s : Line} → Runs s → IsRead s → s.sent ≡ []
  no_dead_letters run json = (Run-IsAbreast sha256 json_dumps json_loads int str run json).quiet

  all_in_log :
      {s : Line} (r : OutboxRow)
      → Runs s
      → All (λ (x : OutboxRow). is_published x.status ≡ true) s.table
      → s.given_up ≡ []
      → IsOneOf r s.db.outbox
      → Mem (message r) s.log
  all_in_log {s} r run published kept mem =
      elim (every_event_accounted sha256 json_dumps json_loads int str r run mem) [
        | inl k ↦ k
        | inr (inl k) ↦ absurd (ground (arith, k, none_waiting r.id s.table published))
        | inr (inr k) ↦ absurd (ground (arith, rw kept at k))
      ]

  all_applied :
      {s : Line} (r : OutboxRow) (a : IsAbreast s)
      → Runs s
      → All (λ (m : Message). IsOneOf m s.committed) s.log
      → IsOneOf r s.db.outbox
      → Mem (message r) s.log
      → Mem r a.applied
  all_applied {s} r a run read mem in_log =
      Mem-elim (λ (m : Message). IsOneOf m s.committed) (Mem r a.applied) (message r) s.log Mem-prop
        read told in_log
    where
      told : IsOneOf (message r) s.committed → Mem r a.applied
      told k =
          let of_event = All-each (IsOf a.applied) (message r) s.committed a.told k in
          let written =
            All-each (λ (x : OutboxRow). IsOneOf x s.db.outbox) of_event.event a.applied a.written
              of_event.written in
          let same =
            same_row s.db.outbox of_event.event r
              (Run-AreDistinct sha256 json_dumps json_loads int str run) written mem
              (inr (ap (λ (m : Message). m.payload.event_id) of_event.tells)) in
          rw same at (IsOneOf-Mem of_event.event a.applied of_event.written)

  all_of_them :
      {s : Line} (a : IsAbreast s)
      → Runs s
      → ((r : OutboxRow) → IsOneOf r s.db.outbox → Mem r a.applied)
      → Perm a.applied s.db.outbox
  all_of_them {s} a run all =
      let distinct = Run-AreDistinct sha256 json_dumps json_loads int str run in
      (perm_ext_iff_of_Nodup (AreDistinct-Nodup a.applied a.distinct)
          (AreDistinct-Nodup s.db.outbox distinct)).1
        (λ r. (
          Mem-elim (λ (x : OutboxRow). IsOneOf x s.db.outbox) (Mem r s.db.outbox) r a.applied
              Mem-prop a.written (IsOneOf-Mem r s.db.outbox),
          Mem-elim (λ (x : OutboxRow). Mem x a.applied) (Mem r a.applied) r s.db.outbox Mem-prop
              (All-intro (λ (x : OutboxRow). Mem x a.applied) s.db.outbox all) (λ k. k),
        ))

  -- The whole chain, from the ledger through the outbox, the relays and Kafka to the read model. Where
  -- every amount has at most four decimals, which the source does not check and the model takes for
  -- granted: when every row of the outbox table is published, none was given up, and the consumer has
  -- committed every message that Kafka has, the read model shows for each user's account the balance
  -- of the ledger. Transactions, relays, crashes, maintenance jobs and the consumer may have interleaved in
  -- any way, and messages may have been sent, and read, in any order and any number of times.
  pub chain_catches_up :
      {s : Line} (a : ℕ)
      → Runs s
      → IsRead s
      → All (λ (r : OutboxRow). is_published r.status ≡ true) s.table
      → s.given_up ≡ []
      → All (λ (m : Message). IsOneOf m s.committed) s.log
      → a ≢ system_account_id
      → activity_balance a s.activity ≡ get_balance s.db a
  unfolding shown
  chain_catches_up {s} a run json published kept read user =
      let b = Run-IsAbreast sha256 json_dumps json_loads int str run json in
      let all =
        all_of_them b run
          (λ r mem. all_applied r b run read mem (all_in_log r run published kept mem)) in
      Consumes-balance (store started) a b.consumes
      ∙ Perm-balance a all
      ∙ Reach-Mirrors sha256 (Run-Reach sha256 json_dumps json_loads int str run) a user
