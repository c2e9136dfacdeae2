-- ===== src/Tests/Relay.antt =====
-- The outbox relay at concrete inputs.
use miniwallet.Base.{
  not, ◌&&◌, ◌≡◌, ◌≤◌, refl, arith, none, List, [], ◌∷◌, true, false, All, IsOneOf, filter, length,
}
use miniwallet.Events.{account_opened, uuid, text}
use miniwallet.Db.{OutboxRow, publish_event}
use miniwallet.Outbox.{
  Pass, select_batch, claim_batch, confirm_batch, publish_all, relay_loop, started, message,
  is_pending,
}
use miniwallet.Outbox.Delivery.{
  Reach, stays, then_step, enqueues, claims, confirms, Delivered, relay_delivers,
}
use miniwallet.Outbox.Batch.{IsOldestFirst, IsFree}
use miniwallet.Outbox.Selection.{IsServed, select_batch_oldest}
use miniwallet.Outbox.Confirm.{is_open, AreDistinct}
use miniwallet.Outbox.Drains.{relay_drains}
use miniwallet.Tests.Data.{env_at, funded_db}

-- The table after one event.
abbrev outbox : List OutboxRow
outbox =
    (publish_event (env_at 1) "account.events" "account.opened"
      (account_opened (uuid 1) (uuid 1) (text "active")) none none funded_db).outbox

-- Kafka acknowledges everything.
abbrev pub good : Pass
good = record {
  locked = λ _. false;
  acks = λ _. true;
  published_at = λ _. 2000;
  monotonic = 400;
  now = 2000;
}

-- An event is written, a relay claims it, sends it, and confirms the batch.
run :
    Reach
      ([], [])
      (
        confirm_batch
            (publish_all good (claim_batch (λ _. false) outbox).0 []).0
            (claim_batch (λ _. false) outbox).1,
        (publish_all good (claim_batch (λ _. false) outbox).0 []).1,
      )
unfolding publish_event
run =
    then_step
      (then_step
        (then_step stays (
          enqueues (env_at 1) "account.events" "account.opened"
            (account_opened (uuid 1) (uuid 1) (text "active")) none none funded_db []))
        (claims (λ _. false) outbox []))
      (confirms good (claim_batch (λ _. false) outbox).0 (claim_batch (λ _. false) outbox).1 [])

relay_delivers_example : Delivered (
  confirm_batch
      (publish_all good (claim_batch (λ _. false) outbox).0 []).0
      (claim_batch (λ _. false) outbox).1,
  (publish_all good (claim_batch (λ _. false) outbox).0 []).1,
)
relay_delivers_example = relay_delivers run

relay_drains_example :
    let s' = relay_loop (good ∷ good ∷ []) (started outbox) in
    All (λ (r : OutboxRow). is_open r.status ≡ false) s'.outbox
    × All
        (λ (r : OutboxRow). IsOneOf (message r) s'.acked)
        (filter (λ (r : OutboxRow). is_pending r.status) outbox)
unfolding publish_event
relay_drains_example =
    relay_drains (good ∷ good ∷ []) (started outbox)
      ((λ _. refl, λ _. refl), ((λ _. refl, λ _. refl), tt)) ((tt, tt), (refl, tt)) (ground arith)

select_batch_oldest_example :
    let rows = select_batch (λ _. false) outbox in
    (length rows ≤ 100)
    × IsOldestFirst rows
    × AreDistinct rows
    × All (IsFree (λ _. false)) rows
    × All (λ (x : OutboxRow). IsOneOf x outbox) rows
    × All (IsServed rows) (filter (λ (r : OutboxRow). is_pending r.status && not false) outbox)
unfolding publish_event
select_batch_oldest_example = select_batch_oldest (λ _. false) outbox (tt, tt)
