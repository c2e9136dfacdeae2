-- ===== src/Outbox/Acked.antt =====
-- A row that waits, and one round of the relay where Kafka acknowledges every send: the row's message
-- is acknowledged, or the row waits on.
use miniwallet.Base.{
  ℕ, ◌≡◌, ◌≢◌, ◌⊎◌, inl, inr, refl, sym, ◌∙◌, List, [], ◌∷◌, true, false, ◌==◌, not, if_intro, ltb,
  ◌+◌, IsOneOf, IsOneOf-filter, any-true, All-each, map, arith, Bool-cases,
}
use miniwallet.Db.{OutboxRow}
use miniwallet.Outbox.{
  Pass, Message, message, Relay, publish_all, acknowledge, set_publishing, contains_id, merge,
  cleanup_published_rows, is_deletable, is_pending, recover_if_due, cleanup_if_due, relay_pass,
  select_batch, claim_batch, confirm_batch, deliver,
}
use miniwallet.Outbox.Claimed.{claim, IsPendingOf, select_batch-IsPendingOf, same_by_id}
use miniwallet.Outbox.Confirm.{AreDistinct}
use miniwallet.Outbox.Sent.{sent, sent-contains}
use miniwallet.Outbox.Settling.{
  IsGood, IsReady, batch, claimed-outbox, recover-idle, recover-Keeps, cleanup-Keeps,
}

module _ (p : Pass) where
  acknowledge-keeps :
      (r : OutboxRow) (log : List Message) (m : Message)
      → IsOneOf m log
      → IsOneOf m (acknowledge p r log)
  acknowledge-keeps r log m h = if_intro (IsOneOf m) (p.acks r) _ _ (λ _. inr h) (λ _. h)

  publish-keeps :
      (rows : List OutboxRow) (log : List Message) (m : Message)
      → IsOneOf m log
      → IsOneOf m (publish_all p rows log).1
  unfolding publish_all
  publish-keeps [] log m h = h
  publish-keeps (r ∷ rows) log m h =
      publish-keeps rows (acknowledge p r log) m (acknowledge-keeps r log m h)

  pub sent-acked :
      (sel : List OutboxRow) (log : List Message) (r : OutboxRow)
      → p.acks (set_publishing r) ≡ true
      → IsOneOf r sel
      → IsOneOf (message r) (publish_all p (map set_publishing sel) log).1
  unfolding publish_all
  sent-acked [] log r ok mem = absurd mem
  sent-acked (x ∷ sel) log r ok (inl e) =
      publish-keeps (map set_publishing sel) _ (message r) (rw (sym e) (rw ok (inl refl)))
  sent-acked (x ∷ sel) log r ok (inr mem) =
      sent-acked sel (acknowledge p (set_publishing x) log) r ok mem

merge-keeps_row :
    (x r : OutboxRow) (t : List OutboxRow) → r.id ≢ x.id → IsOneOf r t → IsOneOf r (merge x t)
merge-keeps_row x r [] ne mem = absurd mem
merge-keeps_row x r (y ∷ t) ne (inl e) =
    if_intro (IsOneOf r) (y.id == x.id) _ _ (λ same. absurd (ne (rw e (ground (arith, same)))))
      (λ _. inl e)
merge-keeps_row x r (y ∷ t) ne (inr mem) =
    if_intro (IsOneOf r) (y.id == x.id) _ _ (λ _. inr mem) (λ _. inr (merge-keeps_row x r t ne mem))

confirm-keeps_row :
    (rows t : List OutboxRow) (r : OutboxRow)
    → contains_id rows r.id ≡ false
    → IsOneOf r t
    → IsOneOf r (confirm_batch rows t)
unfolding confirm_batch
confirm-keeps_row [] t r none mem = mem
confirm-keeps_row (x ∷ rows) t r none mem =
    confirm-keeps_row rows (merge x t) r (ground (arith, none))
      (merge-keeps_row x r t (λ e. ground (arith, none, e)) mem)

claim-keeps_row :
    (sel t : List OutboxRow) (r : OutboxRow)
    → contains_id sel r.id ≡ false
    → IsOneOf r t
    → IsOneOf r (map (claim sel) t)
claim-keeps_row sel [] r other mem = absurd mem
claim-keeps_row sel (x ∷ t) r other (inl e) =
    let same : contains_id sel x.id ≡ false = rw e at other in rw same (inl e)
claim-keeps_row sel (x ∷ t) r other (inr mem) = inr (claim-keeps_row sel t r other mem)

-- The row waits on, or its message has been acknowledged.
abbrev pub IsOnItsWay : OutboxRow → List OutboxRow → List Message → Type 0
IsOnItsWay r t log = IsOneOf r t ⊎ IsOneOf (message r) log

batch-IsOnItsWay :
    (p : Pass) (t : List OutboxRow) (log : List Message) (r : OutboxRow)
    → IsGood p
    → AreDistinct t
    → IsOneOf r t
    → IsOnItsWay r
        (batch p t log)
        (publish_all p (map set_publishing (select_batch p.locked t)) log).1
batch-IsOnItsWay p t log r (_, ok) d mem =
    let sel = select_batch p.locked t in
    elim (Bool-cases (contains_id sel r.id)) [
      | inl chosen ↦
          let (y, of_sel, e) = any-true (λ (x : OutboxRow). x.id == r.id) sel chosen in
          let (of_t, _) =
            All-each (IsPendingOf t) y sel (select_batch-IsPendingOf p.locked t) of_sel in
          let same = same_by_id t y r d of_t mem (ground (arith, e)) in
          inr (sent-acked p sel log r (ok (set_publishing r)) (rw same at of_sel))
      | inr other ↦ inl (
          confirm-keeps_row (sent p sel log) (map (claim sel) t) r
            (sent-contains p r.id sel log ∙ other) (claim-keeps_row sel t r other mem))
    ]

deliver-acked :
    (p : Pass) (s : Relay) (rows t : List OutboxRow)
    → (deliver p s (rows, t)).acked ≡ (publish_all p rows s.acked).1
unfolding publish_all
deliver-acked p s [] t = refl
deliver-acked p s (r ∷ rows) t = refl

claimed-acked :
    (p : Pass) (s : Relay)
    → (deliver p s (claim_batch p.locked s.outbox)).acked
      ≡ (publish_all p (map set_publishing (select_batch p.locked s.outbox)) s.acked).1
unfolding claim_batch
claimed-acked p s =
    let sel = select_batch p.locked s.outbox in
    deliver-acked p s (map set_publishing sel) (map (claim sel) s.outbox)

due-acked : (p : Pass) (s : Relay) → (cleanup_if_due p (recover_if_due p s)).acked ≡ s.acked
due-acked p s = ground arith

recover-keeps_row :
    (p : Pass) (s : Relay) (r : OutboxRow)
    → IsReady s.outbox
    → IsOneOf r s.outbox
    → IsOneOf r (recover_if_due p s).outbox
recover-keeps_row p s r (_, idle) mem =
    if_intro (λ (x : Relay). IsOneOf r x.outbox) (ltb (s.last_recovery + 300) p.monotonic) _ _
      (λ _. let same = recover-idle p.now s.outbox idle in rw same mem) (λ _. mem)

pending-stays :
    (now : ℕ) (r : OutboxRow) → is_pending r.status ≡ true → not (is_deletable now r) ≡ true
pending-stays now r h = ground (arith, h)

cleanup-keeps_row :
    (p : Pass) (s : Relay) (r : OutboxRow)
    → is_pending r.status ≡ true
    → IsOneOf r s.outbox
    → IsOneOf r (cleanup_if_due p s).outbox
unfolding cleanup_published_rows
cleanup-keeps_row p s r waits mem =
    if_intro (λ (x : Relay). IsOneOf r x.outbox) (ltb (s.last_cleanup + 86400) p.monotonic) _ _
      (λ _.
        IsOneOf-filter (λ (x : OutboxRow). not (is_deletable p.now x)) r s.outbox mem
          (pending-stays p.now r waits))
      (λ _. mem)

pub pass-IsOnItsWay :
    (p : Pass) (s : Relay) (r : OutboxRow)
    → IsGood p
    → IsReady s.outbox
    → is_pending r.status ≡ true
    → IsOnItsWay r s.outbox s.acked
    → IsOnItsWay r (relay_pass p s).outbox (relay_pass p s).acked
unfolding relay_pass
pass-IsOnItsWay p s r good ready waits (inl mem) =
    let s₁ = recover_if_due p s in
    let (ready₁, _) = recover-Keeps p s ready in
    let s₂ = cleanup_if_due p s₁ in
    let ((d, _), _) = cleanup-Keeps p s₁ ready₁ in
    let mem₂ = cleanup-keeps_row p s₁ r waits (recover-keeps_row p s r ready mem) in
    rw (claimed-outbox p s₂, claimed-acked p s₂)
      (batch-IsOnItsWay p s₂.outbox s₂.acked r good d mem₂)
pass-IsOnItsWay p s r good ready waits (inr sent_before) =
    let s₂ = cleanup_if_due p (recover_if_due p s) in
    inr (
      rw (claimed-acked p s₂)
        (publish-keeps p _ s₂.acked (message r) (rw (due-acked p s) sent_before)))
