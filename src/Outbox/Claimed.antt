-- ===== src/Outbox/Claimed.antt =====
-- The table after `claim_batch`: the claimed rows wait on, and no other row is on its way.
use miniwallet.Base.{
  ℕ, ◌≡◌, ◌≢◌, inl, inr, refl, sym, ◌∙◌, List, [], ◌∷◌, Bool, true, not, ◌&&◌, ◌==◌, if◌then◌else◌,
  All, All-each, All-intro, IsOneOf, map, filter, arith, Bool-cases, any-true,
}
use miniwallet.Db.{OutboxRow}
use miniwallet.Outbox.{select_batch, set_publishing, contains_id, is_pending, batch_size}
use miniwallet.Outbox.Batch.{All-sort, All-take}
use miniwallet.Outbox.Confirm.{count_open, AreDistinct, IsIdle, waits_at, IsSettled}

-- A row of the table that waits.
abbrev pub IsPendingOf : List OutboxRow → OutboxRow → Type 0
IsPendingOf table r = IsOneOf r table × (is_pending r.status ≡ true)

filter-IsPendingOf :
    (locked : ℕ → Bool) (table l : List OutboxRow)
    → ((x : OutboxRow) → IsOneOf x l → IsOneOf x table)
    → All
        (IsPendingOf table)
        (filter (λ (r : OutboxRow). is_pending r.status && not (locked r.id)) l)
filter-IsPendingOf locked table [] sub = tt
filter-IsPendingOf locked table (x ∷ l) sub =
    let rest = filter-IsPendingOf locked table l (λ y mem. sub y (inr mem)) in
    elim (Bool-cases (is_pending x.status && not (locked x.id))) [
      | inl kept ↦ rw kept ((sub x (inl refl), ground (arith, kept)), rest)
      | inr gone ↦ rw gone rest
    ]

pub select_batch-IsPendingOf :
    (locked : ℕ → Bool) (table : List OutboxRow)
    → All (IsPendingOf table) (select_batch locked table)
unfolding select_batch
select_batch-IsPendingOf locked table =
    All-take (IsPendingOf table) batch_size _
      (All-sort (IsPendingOf table) _ (filter-IsPendingOf locked table table (λ x mem. mem)))

pub same_by_id :
    (l : List OutboxRow) (r x : OutboxRow)
    → AreDistinct l
    → IsOneOf r l
    → IsOneOf x l
    → r.id ≡ x.id
    → r ≡ x
same_by_id [] r x d mr mx e = absurd mr
same_by_id (y ∷ l) r x d (inl er) (inl ex) e = er ∙ sym ex
same_by_id (y ∷ l) r x (ne, d) (inl er) (inr mx) e =
    absurd (All-each (λ (z : OutboxRow). y.id ≢ z.id) x l ne mx (rw er at e))
same_by_id (y ∷ l) r x (ne, d) (inr mr) (inl ex) e =
    absurd (All-each (λ (z : OutboxRow). y.id ≢ z.id) r l ne mr (sym (rw ex at e)))
same_by_id (y ∷ l) r x (ne, d) (inr mr) (inr mx) e = same_by_id l r x d mr mx e

module _ (sel : List OutboxRow) where
  -- What the claim makes of a row.
  abbrev pub claim : OutboxRow → OutboxRow
  claim r = if contains_id sel r.id then set_publishing r else r

  abbrev WasPending : OutboxRow → Type 0
  WasPending x = contains_id sel x.id ≡ true → is_pending x.status ≡ true

  pub all_pending :
      (table : List OutboxRow)
      → AreDistinct table
      → All (IsPendingOf table) sel
      → All WasPending table
  all_pending table d h = All-intro WasPending table (λ x mem found.
      let (y, chosen, e) = any-true (λ (r : OutboxRow). r.id == x.id) sel found in
      let (of_table, pending) = All-each (IsPendingOf table) y sel h chosen in
      let same = same_by_id table y x d of_table mem (ground (arith, e)) in rw same at pending)

  pub claim-count :
      (l : List OutboxRow) → All WasPending l → count_open (map claim l) ≡ count_open l
  claim-count [] h = refl
  claim-count (x ∷ l) (h, hs) = elim (Bool-cases (contains_id sel x.id)) [
    | inl chosen ↦ let p = h chosen in let k = claim-count l hs in rw chosen (ground (arith, p, k))
    | inr other ↦ let k = claim-count l hs in rw other (ground (arith, k))
  ]

  claim-id : (x : OutboxRow) → (claim x).id ≡ x.id
  claim-id x = ground arith

  claim-apart :
      (i : ℕ) (l : List OutboxRow)
      → All (λ (x : OutboxRow). i ≢ x.id) l
      → All (λ (x : OutboxRow). i ≢ x.id) (map claim l)
  claim-apart i [] h = tt
  claim-apart i (x ∷ l) (h, hs) = (λ e. h (e ∙ claim-id x), claim-apart i l hs)

  pub claim-AreDistinct : (l : List OutboxRow) → AreDistinct l → AreDistinct (map claim l)
  claim-AreDistinct [] d = tt
  claim-AreDistinct (x ∷ l) (ne, d) =
      (rw (claim-id x) (claim-apart x.id l ne), claim-AreDistinct l d)

  pub claim-waits :
      (i : ℕ) (l : List OutboxRow)
      → contains_id sel i ≡ true
      → contains_id l i ≡ true
      → waits_at i (map claim l) ≡ true
  claim-waits i [] chosen h = absurd (ground (arith, h))
  claim-waits i (x ∷ l) chosen h = elim (Bool-cases (x.id == i)) [
    | inl same ↦
        let e : x.id ≡ i = ground (arith, same) in
        let c : contains_id sel x.id ≡ true = rw e chosen in rw (c, same) refl
    | inr other ↦
        let k = claim-waits i l chosen (ground (arith, h, other)) in
        ground (arith, claim-id x, other, k)
  ]

  pub claim-IsSettled : (l : List OutboxRow) → All IsIdle l → All (IsSettled sel) (map claim l)
  claim-IsSettled [] h = tt
  claim-IsSettled (x ∷ l) (h, hs) = elim (Bool-cases (contains_id sel x.id)) [
    | inl chosen ↦ rw chosen (inr chosen, claim-IsSettled l hs)
    | inr other ↦ rw other (inl h, claim-IsSettled l hs)
  ]
