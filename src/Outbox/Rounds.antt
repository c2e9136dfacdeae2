-- ===== src/Outbox/Rounds.antt =====
-- The relay's own rounds: how long it sleeps, what it delivers, and that no event is lost.
use miniwallet.Base.{
  ℕ, ◌≤◌, ◌≡◌, ◌⊎◌, inl, refl, ◌+◌, List, [], ◌∷◌, Bool, true, ◌==◌, ◌&&◌, ◌||◌, not, if_intro, map,
  filter, any, arith, ltb,
}
use miniwallet.Models.{OutboxStatus}
use miniwallet.Db.{OutboxRow, publish_event}
use miniwallet.Outbox.{
  Message, Pass, publish_all, merge, confirm_batch, claim_batch, select_batch, set_publishing,
  contains_id, recover_stuck_rows, is_stuck, cleanup_published_rows, is_deletable, is_published,
  is_failed, Relay, relay_pass, relay_loop, recover_if_due, cleanup_if_due, deliver, started,
}
use miniwallet.Outbox.Delivery.{
  Step, enqueues, claims, confirms, crashes, recovers, cleans, Delivered, Step-Delivered,
}

-- The sleep between two rounds stays between one second and thirty.
abbrev pub IsPaced : Relay → Type 0
IsPaced s = (1 ≤ s.backoff) × (s.backoff ≤ 30)

deliver-IsPaced :
    (p : Pass) (s : Relay) (c : List OutboxRow × List OutboxRow)
    → IsPaced s
    → IsPaced (deliver p s c)
deliver-IsPaced p s ([], outbox) h = (ground (arith, h), ground (arith, h))
deliver-IsPaced p s (r ∷ claimed, outbox) h = (ground (arith, h), ground (arith, h))

due-backoff : (p : Pass) (s : Relay) → (cleanup_if_due p (recover_if_due p s)).backoff ≡ s.backoff
due-backoff p s = ground arith

relay_loop-IsPaced_from : (l : List Pass) (s : Relay) → IsPaced s → IsPaced (relay_loop l s)
unfolding relay_loop relay_pass
relay_loop-IsPaced_from [] s h = h
relay_loop-IsPaced_from (p ∷ l) s h =
    relay_loop-IsPaced_from l _
      (deliver-IsPaced p (cleanup_if_due p (recover_if_due p s)) _ (rw (due-backoff p s) h))

-- However many rounds the relay has run, and whatever Kafka answered in them, it sleeps at least one
-- second and at most thirty before the next.
relay_loop-IsPaced :
    (l : List Pass) (outbox : List OutboxRow) → IsPaced (relay_loop l (started outbox))
relay_loop-IsPaced l outbox =
    relay_loop-IsPaced_from l (started outbox) (ground arith, ground arith)

abbrev IsDelivered : Relay → Type 0
IsDelivered s = Delivered (s.outbox, s.acked)

due-IsDelivered :
    (p : Pass) (s : Relay) → IsDelivered s → IsDelivered (cleanup_if_due p (recover_if_due p s))
due-IsDelivered p s h = cleaned (recover_if_due p s) (
    if_intro IsDelivered (ltb (s.last_recovery + 300) p.monotonic)
      (record s { outbox = recover_stuck_rows p.now s.outbox; last_recovery = p.monotonic }) s
      (λ _. Step-Delivered (recovers p.now s.outbox s.acked) h) (λ _. h))
  where
    cleaned : (s' : Relay) → IsDelivered s' → IsDelivered (cleanup_if_due p s')
    cleaned s' k =
        if_intro IsDelivered (ltb (s'.last_cleanup + 86400) p.monotonic)
          (record s' {
            outbox = cleanup_published_rows p.now s'.outbox;
            last_cleanup = p.monotonic;
          })
          s' (λ _. Step-Delivered (cleans p.now s'.outbox s'.acked) k) (λ _. k)

deliver-IsDelivered :
    (p : Pass) (s : Relay) (claimed outbox : List OutboxRow)
    → Delivered (outbox, s.acked)
    → IsDelivered (deliver p s (claimed, outbox))
deliver-IsDelivered p s [] outbox h = h
deliver-IsDelivered p s (r ∷ claimed) outbox h =
    Step-Delivered (confirms p (r ∷ claimed) outbox s.acked) h

relay_pass-IsDelivered : (p : Pass) (s : Relay) → IsDelivered s → IsDelivered (relay_pass p s)
unfolding relay_pass
relay_pass-IsDelivered p s h =
    let s₁ = cleanup_if_due p (recover_if_due p s) in
    deliver-IsDelivered p s₁ (claim_batch p.locked s₁.outbox).0 (claim_batch p.locked s₁.outbox).1
      (Step-Delivered (claims p.locked s₁.outbox s₁.acked) (due-IsDelivered p s h))

-- The relay alone, round after round: if each row that is marked published had its message
-- acknowledged, and each that is marked failed had used up its retries, this still holds.
pub relay_loop-IsDelivered :
    (l : List Pass) (s : Relay)
    → Delivered (s.outbox, s.acked)
    → let s' = relay_loop l s in Delivered (s'.outbox, s'.acked)
unfolding relay_loop
relay_loop-IsDelivered [] s h = h
relay_loop-IsDelivered (p ∷ l) s h =
    relay_loop-IsDelivered l (relay_pass p s) (relay_pass-IsDelivered p s h)

pub deletable-ended :
    (now : ℕ) (r : OutboxRow)
    → is_deletable now r ≡ true
    → (is_published r.status || is_failed r.status) ≡ true
deletable-ended now r h = ground arith

-- A row with the id, and one that has been delivered or given up.
abbrev pub has_ended : ℕ → List OutboxRow → Bool
has_ended i l =
    any (λ (r : OutboxRow). r.id == i && (is_published r.status || is_failed r.status)) l

pub map-keeps :
    (i : ℕ) (f : OutboxRow → OutboxRow) (l : List OutboxRow)
    → ((r : OutboxRow) → (f r).id ≡ r.id)
    → contains_id l i ≡ true
    → contains_id (map f l) i ≡ true
map-keeps i f [] same h = h
map-keeps i f (r ∷ l) same h = ground (arith, same r, map-keeps i f l same)

merge-keeps :
    (i : ℕ) (r : OutboxRow) (l : List OutboxRow)
    → contains_id l i ≡ true
    → contains_id (merge r l) i ≡ true
merge-keeps i r [] h = ground arith
merge-keeps i r (x ∷ l) h = ground (arith, merge-keeps i r l)

pub confirm-keeps :
    (i : ℕ) (rows l : List OutboxRow)
    → contains_id l i ≡ true
    → contains_id (confirm_batch rows l) i ≡ true
unfolding confirm_batch
confirm-keeps i [] l h = h
confirm-keeps i (r ∷ rows) l h = confirm-keeps i rows (merge r l) (merge-keeps i r l h)

filter-keeps :
    (i now : ℕ) (l : List OutboxRow)
    → contains_id l i ≡ true
    → (contains_id (filter (λ (r : OutboxRow). not (is_deletable now r)) l) i ≡ true)
      ⊎ (has_ended i l ≡ true)
filter-keeps i now [] h = inl h
filter-keeps i now (r ∷ l) h = ground (arith, filter-keeps i now l, deletable-ended now r)

-- No event is lost: a row that one step takes out of the table had been delivered or given up.
no_event_lost :
    {s t : List OutboxRow × List Message} (i : ℕ)
    → Step s t
    → contains_id s.0 i ≡ true
    → (contains_id t.0 i ≡ true) ⊎ (has_ended i s.0 ≡ true)
unfolding publish_event claim_batch recover_stuck_rows cleanup_published_rows
no_event_lost i (enqueues env topic event_type payload actor event_id db log) h =
    inl (ground (arith, h))
no_event_lost i (claims locked outbox log) h = inl (
    map-keeps i _ outbox
      (λ r.
        if_intro (λ (x : OutboxRow). x.id ≡ r.id) (contains_id (select_batch locked outbox) r.id)
          (set_publishing r) r (λ _. refl) (λ _. refl))
      h)
no_event_lost i (confirms p batch outbox log) h =
    inl (confirm-keeps i (publish_all p batch log).0 outbox h)
no_event_lost i (crashes p sent outbox log) h = inl h
no_event_lost i (recovers now outbox log) h = inl (
    map-keeps i _ outbox
      (λ r.
        if_intro (λ (x : OutboxRow). x.id ≡ r.id) (is_stuck now r)
          (record r { status = OutboxStatus.pending }) r (λ _. refl) (λ _. refl))
      h)
no_event_lost i (cleans now outbox log) h = filter-keeps i now outbox h
