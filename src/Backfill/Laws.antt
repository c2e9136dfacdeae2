-- ===== src/Backfill/Laws.antt =====
-- A backfill that has run is not run again, and one that is forced publishes the same events.
use miniwallet.Base.{
  All, All-each, IsOneOf, any-true, any-intro, ℕ, ◌+◌, ◌≡◌, refl, inl, inr, arith, Bool-cases,
  String, Bool, true, false, none, some, List, [], ◌∷◌, ◌++◌, filter, map, any, sort_by, insert_by,
  ltb, not, str_eq, if_intro, ◌&&◌,
}
use miniwallet.Errors.{ok, raise, runtime_error}
use miniwallet.Models.{Account}
use miniwallet.Db.{Db, Env, OutboxRow, publish_event, outbox_row}
use miniwallet.Backfill.{
  Draft, is_user_account, account_draft, drafts, publish_drafts, is_opened, backfill,
}

any_later {ℓ} :
    {A : Type ℓ} (p : A → Bool) (x : A) (l : List A) → any p l ≡ true → any p (x ∷ l) ≡ true
any_later p x l h = rw h (if_intro (λ b. b ≡ true) (p x) true true (λ _. refl) (λ _. refl))

any-insert_by {ℓ} :
    {A : Type ℓ} (key : A → ℕ) (p : A → Bool) (x : A) (l : List A)
    → p x ≡ true
    → any p (insert_by key x l) ≡ true
any-insert_by key p x [] h = rw h refl
any-insert_by key p x (y ∷ l) h =
    if_intro (λ k. any p k ≡ true) (ltb (key y) (key x)) _ _
      (λ _. any_later p y _ (any-insert_by key p x l h)) (λ _. rw h refl)

-- Sorting the selected rows loses none of them.
any_sort_filter {ℓ} :
    {A : Type ℓ} (key : A → ℕ) (p : A → Bool) (l : List A)
    → any p l ≡ true
    → any p (sort_by key (filter p l)) ≡ true
any_sort_filter key p [] h = h
any_sort_filter key p (x ∷ l) h = elim (Bool-cases (p x)) [
  | inl e ↦ rw e (any-insert_by key p x (sort_by key (filter p l)) e)
  | inr e ↦ rw e (any_sort_filter key p l (rw e at h))
]

abbrev opens : Draft → Bool
opens d = str_eq d.event_type "account.opened"

publish_keeps_opened :
    (envs : ℕ → Env) (n : ℕ) (l : List Draft) (db : Db)
    → any is_opened db.outbox ≡ true
    → any is_opened (publish_drafts envs n l db).outbox ≡ true
unfolding publish_drafts publish_event
publish_keeps_opened envs n [] db h = h
publish_keeps_opened envs n (d ∷ l) db h = publish_keeps_opened envs (n + 1) l _ (
    any_later is_opened (outbox_row (envs n) d.topic d.event_type d.payload none (some d.event_id))
      db.outbox h)

publish_opens :
    (envs : ℕ → Env) (n : ℕ) (l : List Draft) (db : Db)
    → any opens l ≡ true
    → any is_opened (publish_drafts envs n l db).outbox ≡ true
unfolding publish_drafts publish_event
publish_opens envs n [] db h = ground (arith, h)
publish_opens envs n (d ∷ l) db h = elim (Bool-cases (opens d)) [
  | inl e ↦ publish_keeps_opened envs (n + 1) l _ (rw e refl)
  | inr e ↦ publish_opens envs (n + 1) l _ (rw e at h)
]

-- The identifiers, those of later drafts first.
abbrev pub ids_onto : List Draft → List ℕ → List ℕ
ids_onto [] acc = acc
ids_onto (d ∷ l) acc = ids_onto l (d.event_id ∷ acc)

abbrev pub event_ids : Db → List ℕ
event_ids db = map (λ (r : OutboxRow). r.payload.event_id) db.outbox

-- The table has the row's id, with its event type.
abbrev pub IsStill : List OutboxRow → OutboxRow → Type 0
IsStill outbox r =
    (x : OutboxRow) × IsOneOf x outbox × (x.id ≡ r.id) × (x.event_type ≡ r.event_type)

module _ (uuid5 : String → ℕ) where
  opened_first :
      (l : List Account) (r : List Draft)
      → any is_user_account l ≡ true
      → any opens (map (account_draft uuid5) l ++ r) ≡ true
  opened_first [] r h = ground (arith, h)
  opened_first (a ∷ l) r h = refl

  drafts_open :
      (db : Db) → any is_user_account db.accounts ≡ true → any opens (drafts uuid5 db) ≡ true
  unfolding drafts
  drafts_open db h =
      opened_first (sort_by (λ (a : Account). a.created_at) (filter is_user_account db.accounts)) _
        (any_sort_filter (λ (a : Account). a.created_at) is_user_account db.accounts h)

  backfill_opens :
      (envs : ℕ → Env) (force : Bool) (db : Db)
      → any is_user_account db.accounts ≡ true
      → (backfill uuid5 envs force db).0 ≡ ok tt
      → any is_opened (backfill uuid5 envs force db).1.outbox ≡ true
  unfolding backfill
  backfill_opens envs force db user h =
      let opened = publish_opens envs 0 (drafts uuid5 db) db (drafts_open db user) in
      elim (Bool-cases (not force && any is_opened db.outbox)) [
        | inl e ↦ ground (arith, rw e at h)
        | inr e ↦ rw e opened
      ]

  -- Where a user has an account: after a backfill that has run, forced or not, one that is not
  -- forced is refused as long as every row that the outbox then had is still there with its event
  -- type, whatever its status and whatever else has been written: it raises RuntimeError and
  -- publishes nothing.
  pub backfill_once :
      (envs envs' : ℕ → Env) (force : Bool) (db later : Db)
      → any is_user_account db.accounts ≡ true
      → (backfill uuid5 envs force db).0 ≡ ok tt
      → All (IsStill later.outbox) (backfill uuid5 envs force db).1.outbox
      → backfill uuid5 envs' false later ≡ (raise runtime_error, later)
  unfolding backfill
  backfill_once envs envs' force db later user h still =
      let before = (backfill uuid5 envs force db).1.outbox in
      let (r, mem, opens_r) = any-true is_opened before (backfill_opens envs force db user h) in
      let (x, mem', _, same) = All-each (IsStill later.outbox) r before still mem in
      let opens_x : is_opened x ≡ true = rw same opens_r in
      let opened = any-intro is_opened x later.outbox mem' opens_x in rw opened refl

  publish_drafts-ids :
      (envs : ℕ → Env) (n : ℕ) (l : List Draft) (db : Db)
      → event_ids (publish_drafts envs n l db) ≡ ids_onto l (event_ids db)
  unfolding publish_drafts publish_event
  publish_drafts-ids envs n [] db = refl
  publish_drafts-ids envs n (d ∷ l) db = publish_drafts-ids envs (n + 1) l _

  publish_drafts-drafts :
      (envs : ℕ → Env) (n : ℕ) (l : List Draft) (db : Db)
      → drafts uuid5 (publish_drafts envs n l db) ≡ drafts uuid5 db
  unfolding publish_drafts publish_event drafts
  publish_drafts-drafts envs n [] db = refl
  publish_drafts-drafts envs n (d ∷ l) db = publish_drafts-drafts envs (n + 1) l _

  -- Two forced runs one after the other publish the same identifiers in the same order, so that a
  -- consumer takes the events of the second for those of the first.
  pub backfill_same_ids :
      (envs envs' : ℕ → Env) (db : Db)
      → let once = (backfill uuid5 envs true db).1 in
        (event_ids once ≡ ids_onto (drafts uuid5 db) (event_ids db))
        × (event_ids (backfill uuid5 envs' true once).1
            ≡ ids_onto (drafts uuid5 db) (event_ids once))
  unfolding backfill
  backfill_same_ids envs envs' db =
      let all = drafts uuid5 db in
      (
        publish_drafts-ids envs 0 all db,
        rw (publish_drafts-drafts envs 0 all db) (publish_drafts-ids envs' 0 all _),
      )
