-- ===== src/Audit/Laws.antt =====
-- The audit trail has each event once, however often it is delivered.
use miniwallet.Base.{
  ℕ, ◌≤◌, ◌≡◌, refl, inl, inr, true, false, List, [], ◌∷◌, length, ◌==◌, Bool-cases, arith, Option,
}
use miniwallet.Errors.{Result, ok, raise, ◌>>=◌}
use miniwallet.Events.{EventEnvelope}
use miniwallet.Events.Parse.{Parsed, parse_event}
use miniwallet.Audit.{
  AuditEvent, audit_row, has_event, insert_audit_event, silenced, resource_text, resource_of,
  process, rows_for,
}

-- Each event has at most one row.
abbrev pub IsUnique : List AuditEvent → Type 0
IsUnique l = (i : ℕ) → length (rows_for i l) ≤ 1

rows_for-none : (i : ℕ) (l : List AuditEvent) → has_event i l ≡ false → length (rows_for i l) ≡ 0
rows_for-none i [] h = refl
rows_for-none i (e ∷ l) h = elim (Bool-cases (e.event_id == i)) [
  | inl p ↦ ground (arith, rw p at h)
  | inr p ↦ rw p (rows_for-none i l (rw p at h))
]

rows_for-some : (i : ℕ) (l : List AuditEvent) → has_event i l ≡ true → 1 ≤ length (rows_for i l)
rows_for-some i [] h = ground (arith, h)
rows_for-some i (e ∷ l) h = elim (Bool-cases (e.event_id == i)) [
  | inl p ↦ rw p (omega arith)
  | inr p ↦ rw p (rows_for-some i l (rw p at h))
]

-- What a successful `process` leaves.
record Recorded (i : ℕ) (l : List AuditEvent) : Type 0 where
  once : length (rows_for i l) ≡ 1
  unique : IsUnique l

new_row-Recorded :
    (e : AuditEvent) (l : List AuditEvent)
    → IsUnique l
    → has_event e.event_id l ≡ false
    → Recorded e.event_id (e ∷ l)
new_row-Recorded e l u h =
    let none_yet = rows_for-none e.event_id l h in
    let same : (e.event_id == e.event_id) ≡ true = ground arith in
    record {
      once = rw (same, none_yet) refl;
      unique = λ i. elim (Bool-cases (e.event_id == i)) [
        | inl p ↦
            (let eq : e.event_id ≡ i = ground (arith, p) in
              let empty : length (rows_for i l) ≡ 0 = rows_for-none i l (rw eq at h) in
              rw (p, empty) (omega arith))
        | inr p ↦ rw p (u i)
      ];
    }

inserted-Recorded :
    (e : AuditEvent) (l : List AuditEvent) {l' : List AuditEvent}
    → IsUnique l
    → silenced l (insert_audit_event e l) ≡ ok l'
    → Recorded e.event_id l'
unfolding insert_audit_event
inserted-Recorded e l {l'} u h = elim (Bool-cases (has_event e.event_id l)) [
  | inl p ↦
      (let same : l' ≡ l = ground (arith, p) in
        let least = rows_for-some e.event_id l p in
        let most = u e.event_id in
        rw same (record { once = omega (arith, least, most); unique = u }))
  | inr p ↦ (let same : l' ≡ e ∷ l = ground (arith, p) in rw same (new_row-Recorded e l u p))
]

resourced-Recorded :
    (envelope : EventEnvelope) (l : List AuditEvent) (r : Result (Option ℕ)) {l' : List AuditEvent}
    → IsUnique l
    → (r >>= λ resource. silenced l (insert_audit_event (audit_row envelope resource) l)) ≡ ok l'
    → Recorded envelope.event_id l'
resourced-Recorded envelope l (raise e) u h = ground (arith, h)
resourced-Recorded envelope l (ok resource) u h =
    inserted-Recorded (audit_row envelope resource) l u h

parsed-Recorded :
    (envelope : EventEnvelope) (l : List AuditEvent) (x : Result Parsed) {l' : List AuditEvent}
    → IsUnique l
    → (x >>= λ payload. resource_of (resource_text payload) >>= λ resource.
        silenced l (insert_audit_event (audit_row envelope resource) l))
      ≡ ok l'
    → Recorded envelope.event_id l'
parsed-Recorded envelope l (raise e) u h = ground (arith, h)
parsed-Recorded envelope l (ok payload) u h = resourced-Recorded envelope l _ u h

-- In an audit trail with at most one row for each event: an event that the consumer has processed
-- without raising, delivered for the first time or again, has exactly one row, and no other event
-- has more than one.
pub audit_exactly_once :
    (envelope : EventEnvelope) (l : List AuditEvent) {l' : List AuditEvent}
    → IsUnique l
    → process envelope l ≡ ok l'
    → (length (rows_for envelope.event_id l') ≡ 1) × IsUnique l'
unfolding process
audit_exactly_once envelope l u h =
    let r = parsed-Recorded envelope l (parse_event envelope) u h in (r.once, r.unique)
