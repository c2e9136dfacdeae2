-- ===== src/Outbox/Settling.antt =====
-- One round of the relay where Kafka acknowledges every send: at least a hundred rows fewer wait.
use miniwallet.Base.{
  ℕ, ◌≡◌, ◌≤◌, inl, inr, refl, ◌∙◌, ◌+◌, ◌-◌, List, [], ◌∷◌, Bool, true, false, ◌==◌, not, ltb,
  if_intro, All, All-each, All-imp, All-intro, any-intro, map, filter, arith, Bool-cases,
}
use miniwallet.Db.{OutboxRow}
use miniwallet.Outbox.{
  Pass, Message, Relay, publish_all, set_publishing, recover_stuck_rows, cleanup_published_rows,
  is_deletable, recover_if_due, cleanup_if_due, relay_pass, select_batch, claim_batch,
  confirm_batch, deliver,
}
use miniwallet.Outbox.Confirm.{
  count_open, AreDistinct, IsIdle, waits_at, IsSettled, confirm-count, confirm-AreDistinct,
  confirm-IsIdle,
}
use miniwallet.Outbox.Claim.{select_batch-length, select_batch-AreDistinct, filter-AreDistinct}
use miniwallet.Outbox.Claimed.{
  claim, IsPendingOf, select_batch-IsPendingOf, all_pending, claim-count, claim-AreDistinct,
  claim-waits, claim-IsSettled,
}
use miniwallet.Outbox.Sent.{
  sent, sent-IsPublished, sent-length, sent-contains, sent-All, sent-AreDistinct,
}

-- Nothing is locked elsewhere, and Kafka acknowledges every send.
abbrev pub IsGood : Pass → Type 0
IsGood p = ((i : ℕ) → p.locked i ≡ false) × ((r : OutboxRow) → p.acks r ≡ true)

-- One row for an id, and none on its way.
abbrev pub IsReady : List OutboxRow → Type 0
IsReady t = AreDistinct t × All IsIdle t

selected_wait :
    (locked : ℕ → Bool) (t : List OutboxRow)
    → let sel = select_batch locked t in
      All (λ (x : OutboxRow). waits_at x.id (map (claim sel) t) ≡ true) sel
selected_wait locked t =
    let sel = select_batch locked t in
    All-intro (λ (x : OutboxRow). waits_at x.id (map (claim sel) t) ≡ true) sel
      (λ x mem.
        let (of_table, _) =
          All-each (IsPendingOf t) x sel (select_batch-IsPendingOf locked t) mem in
        claim-waits sel x.id t
          (any-intro (λ (r : OutboxRow). r.id == x.id) x sel mem (ground arith))
          (any-intro (λ (r : OutboxRow). r.id == x.id) x t of_table (ground arith)))

-- The table after a batch.
abbrev pub batch : Pass → List OutboxRow → List Message → List OutboxRow
batch p t log =
    let sel = select_batch p.locked t in confirm_batch (sent p sel log) (map (claim sel) t)

batch-count :
    (p : Pass) (t : List OutboxRow) (log : List Message)
    → IsGood p
    → IsReady t
    → count_open (batch p t log) ≤ count_open t - 100
batch-count p t log (free, ok) (d, idle) =
    let sel = select_batch p.locked t in
    let pending = all_pending sel t d (select_batch-IsPendingOf p.locked t) in
    let waits =
      sent-All p (λ i. waits_at i (map (claim sel) t) ≡ true) sel log (selected_wait p.locked t) in
    let unique = sent-AreDistinct p sel log (select_batch-AreDistinct p.locked t d) in
    let n =
      confirm-count (sent p sel log) (map (claim sel) t) unique (sent-IsPublished p sel log ok)
        waits in
    let k = claim-count sel t pending in
    let m = sent-length p sel log in
    let full = select_batch-length p.locked t free idle in ground (arith, n, k, m, full)

batch-IsReady :
    (p : Pass) (t : List OutboxRow) (log : List Message)
    → IsGood p
    → IsReady t
    → IsReady (batch p t log)
batch-IsReady p t log (free, ok) (d, idle) =
    let sel = select_batch p.locked t in
    let d' = claim-AreDistinct sel t d in
    let settled =
      All-imp (IsSettled sel) (IsSettled (sent p sel log)) (map (claim sel) t)
        (λ x h. elim h [
          | inl still ↦ inl still
          | inr found ↦ inr (sent-contains p x.id sel log ∙ found)
        ])
        (claim-IsSettled sel t idle) in
    (
      confirm-AreDistinct (sent p sel log) (map (claim sel) t) d',
      confirm-IsIdle (sent p sel log) (map (claim sel) t) (sent-IsPublished p sel log ok) d'
          settled,
    )

deliver-outbox :
    (p : Pass) (s : Relay) (rows t : List OutboxRow)
    → (deliver p s (rows, t)).outbox ≡ confirm_batch (publish_all p rows s.acked).0 t
unfolding publish_all confirm_batch
deliver-outbox p s [] t = refl
deliver-outbox p s (r ∷ rows) t = refl

pub claimed-outbox :
    (p : Pass) (s : Relay)
    → (deliver p s (claim_batch p.locked s.outbox)).outbox ≡ batch p s.outbox s.acked
unfolding claim_batch
claimed-outbox p s =
    let sel = select_batch p.locked s.outbox in
    deliver-outbox p s (map set_publishing sel) (map (claim sel) s.outbox)

pub recover-idle : (now : ℕ) (t : List OutboxRow) → All IsIdle t → recover_stuck_rows now t ≡ t
unfolding recover_stuck_rows
recover-idle now [] h = refl
recover-idle now (x ∷ t) (h, hs) = rw (h, recover-idle now t hs) refl

filter-count : (p : OutboxRow → Bool) (t : List OutboxRow) → count_open (filter p t) ≤ count_open t
filter-count p [] = ground arith
filter-count p (x ∷ t) = ground (arith, filter-count p t)

filter-IsIdle : (p : OutboxRow → Bool) (t : List OutboxRow) → All IsIdle t → All IsIdle (filter p t)
filter-IsIdle p [] h = tt
filter-IsIdle p (x ∷ t) (h, hs) = elim (Bool-cases (p x)) [
  | inl kept ↦ rw kept (h, filter-IsIdle p t hs)
  | inr gone ↦ rw gone (filter-IsIdle p t hs)
]

-- Ready, with no more rows that wait than `t` has.
abbrev pub Keeps : List OutboxRow → List OutboxRow → Type 0
Keeps t t' = IsReady t' × (count_open t' ≤ count_open t)

pub recover-Keeps :
    (p : Pass) (s : Relay) → IsReady s.outbox → Keeps s.outbox (recover_if_due p s).outbox
recover-Keeps p s (d, idle) =
    if_intro (λ (r : Relay). Keeps s.outbox r.outbox) (ltb (s.last_recovery + 300) p.monotonic) _ _
      (λ _. let same = recover-idle p.now s.outbox idle in rw same ((d, idle), ground arith))
      (λ _. ((d, idle), ground arith))

pub cleanup-Keeps :
    (p : Pass) (s : Relay) → IsReady s.outbox → Keeps s.outbox (cleanup_if_due p s).outbox
unfolding cleanup_published_rows
cleanup-Keeps p s (d, idle) =
    let live = λ (r : OutboxRow). not (is_deletable p.now r) in
    if_intro (λ (r : Relay). Keeps s.outbox r.outbox) (ltb (s.last_cleanup + 86400) p.monotonic) _ _
      (λ _. (
        (filter-AreDistinct live s.outbox d, filter-IsIdle live s.outbox idle),
        filter-count live s.outbox,
      ))
      (λ _. ((d, idle), ground arith))

pub pass-IsReady :
    (p : Pass) (s : Relay)
    → IsGood p
    → IsReady s.outbox
    → IsReady (relay_pass p s).outbox
      × (count_open (relay_pass p s).outbox ≤ count_open s.outbox - 100)
unfolding relay_pass
pass-IsReady p s good ready =
    let s₁ = recover_if_due p s in
    let (ready₁, n₁) = recover-Keeps p s ready in
    let s₂ = cleanup_if_due p s₁ in
    let (ready₂, n₂) = cleanup-Keeps p s₁ ready₁ in
    let n = batch-count p s₂.outbox s₂.acked good ready₂ in
    rw (claimed-outbox p s₂)
      (batch-IsReady p s₂.outbox s₂.acked good ready₂, ground (arith, n₁, n₂, n))
