-- ===== src/Outbox/Sent.antt =====
-- The claimed rows after their sends.
use miniwallet.Base.{ℕ, ◌≡◌, ◌≢◌, refl, List, [], ◌∷◌, true, All, map, length, arith}
use miniwallet.Db.{OutboxRow}
use miniwallet.Outbox.{
  Pass, Message, publish_row, publish_all, acknowledge, set_publishing, contains_id,
}
use miniwallet.Outbox.Confirm.{AreDistinct, IsPublished}

module _ (p : Pass) where
  -- The claimed rows after their sends.
  abbrev pub sent : List OutboxRow → List Message → List OutboxRow
  sent l log = (publish_all p (map set_publishing l) log).0

  row-id : (r : OutboxRow) → (publish_row p (set_publishing r)).id ≡ r.id
  unfolding publish_row
  row-id r = ground arith

  row-IsPublished :
      (r : OutboxRow)
      → ((x : OutboxRow) → p.acks x ≡ true)
      → IsPublished (publish_row p (set_publishing r))
  unfolding publish_row
  row-IsPublished r ok = rw (ok (set_publishing r)) refl

  pub sent-IsPublished :
      (l : List OutboxRow) (log : List Message)
      → ((x : OutboxRow) → p.acks x ≡ true)
      → All IsPublished (sent l log)
  unfolding publish_all
  sent-IsPublished [] log ok = tt
  sent-IsPublished (r ∷ l) log ok = (row-IsPublished r ok, sent-IsPublished l _ ok)

  pub sent-length : (l : List OutboxRow) (log : List Message) → length (sent l log) ≡ length l
  unfolding publish_all
  sent-length [] log = refl
  sent-length (r ∷ l) log = ground (arith, sent-length l (acknowledge p (set_publishing r) log))

  pub sent-contains :
      (i : ℕ) (l : List OutboxRow) (log : List Message)
      → contains_id (sent l log) i ≡ contains_id l i
  unfolding publish_all
  sent-contains i [] log = refl
  sent-contains i (r ∷ l) log =
      rw (row-id r, sent-contains i l (acknowledge p (set_publishing r) log)) refl

  -- What holds of the claimed ids holds of the sent ones.
  pub sent-All :
      (P : ℕ → Type 0) (l : List OutboxRow) (log : List Message)
      → All (λ (x : OutboxRow). P x.id) l
      → All (λ (x : OutboxRow). P x.id) (sent l log)
  unfolding publish_all
  sent-All P [] log h = tt
  sent-All P (r ∷ l) log (h, hs) = (rw (row-id r) h, sent-All P l _ hs)

  pub sent-AreDistinct :
      (l : List OutboxRow) (log : List Message) → AreDistinct l → AreDistinct (sent l log)
  unfolding publish_all
  sent-AreDistinct [] log d = tt
  sent-AreDistinct (r ∷ l) log (ne, d) =
      (rw (row-id r) (sent-All (λ i. r.id ≢ i) l _ ne), sent-AreDistinct l _ d)
