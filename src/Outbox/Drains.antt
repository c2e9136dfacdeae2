-- ===== src/Outbox/Drains.antt =====
-- The rounds of the relay where Kafka acknowledges every send: they deliver all that waits.
use miniwallet.Base.{
  ◌≡◌, ◌≤◌, inl, inr, refl, ◌*◌, List, [], ◌∷◌, true, false, Bool, Bool-cases, filter, IsOneOf, All,
  All-each, length, arith,
}
use miniwallet.Db.{OutboxRow}
use miniwallet.Outbox.{Pass, Relay, message, is_pending, relay_pass, relay_loop}
use miniwallet.Outbox.Acked.{IsOnItsWay, pass-IsOnItsWay}
use miniwallet.Outbox.Confirm.{is_open, count_open}
use miniwallet.Outbox.Settling.{IsGood, IsReady, pass-IsReady}

none_open :
    (t : List OutboxRow) → count_open t ≤ 0 → All (λ (r : OutboxRow). is_open r.status ≡ false) t
none_open [] h = tt
none_open (x ∷ t) h = (ground (arith, h), none_open t (ground (arith, h)))

all_ended :
    (l : List Pass) (s : Relay)
    → All IsGood l
    → IsReady s.outbox
    → count_open s.outbox ≤ 100 * length l
    → All (λ (r : OutboxRow). is_open r.status ≡ false) (relay_loop l s).outbox
unfolding relay_loop
all_ended [] s good ready n = none_open s.outbox (ground (arith, n))
all_ended (p ∷ l) s (good, goods) ready n =
    let (ready', fewer) = pass-IsReady p s good ready in
    all_ended l (relay_pass p s) goods ready' (ground (arith, fewer, n))

on_its_way :
    (l : List Pass) (s : Relay) (r : OutboxRow)
    → All IsGood l
    → IsReady s.outbox
    → is_pending r.status ≡ true
    → IsOnItsWay r s.outbox s.acked
    → let s' = relay_loop l s in IsOnItsWay r s'.outbox s'.acked
unfolding relay_loop
on_its_way [] s r goods ready waits h = h
on_its_way (p ∷ l) s r (good, goods) ready waits h =
    let (ready', _) = pass-IsReady p s good ready in
    on_its_way l (relay_pass p s) r goods ready' waits (pass-IsOnItsWay p s r good ready waits h)

filter-All :
    (q : OutboxRow → Bool) (P : OutboxRow → Type 0) (t : List OutboxRow)
    → ((r : OutboxRow) → IsOneOf r t → q r ≡ true → P r)
    → All P (filter q t)
filter-All q P [] h = tt
filter-All q P (x ∷ t) h =
    let rest = filter-All q P t (λ r mem. h r (inr mem)) in
    elim (Bool-cases (q x)) [
      | inl kept ↦ rw kept (h x (inl refl) kept, rest)
      | inr gone ↦ rw gone rest
    ]

-- Where nothing is locked elsewhere and Kafka acknowledges every send, and at the start each id has
-- one row and no row is on its way, as many rounds as there are batches of a hundred rows leave no
-- row that is pending or on its way, and Kafka has acknowledged the message of each row that was
-- pending at the start.
pub relay_drains :
    (l : List Pass) (s : Relay)
    → All IsGood l
    → IsReady s.outbox
    → count_open s.outbox ≤ 100 * length l
    → let s' = relay_loop l s in
      All (λ (r : OutboxRow). is_open r.status ≡ false) s'.outbox
      × All
          (λ (r : OutboxRow). IsOneOf (message r) s'.acked)
          (filter (λ (r : OutboxRow). is_pending r.status) s.outbox)
relay_drains l s goods ready n =
    let s' = relay_loop l s in
    let ended = all_ended l s goods ready n in
    (
      ended,
      filter-All (λ (r : OutboxRow). is_pending r.status) (λ r. IsOneOf (message r) s'.acked)
          s.outbox
          (λ r mem waits. elim (on_its_way l s r goods ready waits (inl mem)) [
            | inl still ↦
                let e =
                  All-each (λ (x : OutboxRow). is_open x.status ≡ false) r s'.outbox ended still in
                absurd (ground (arith, e, waits))
            | inr done ↦ done
          ]),
    )
