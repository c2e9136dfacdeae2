-- ===== src/Keys/Rows.antt =====
-- The requests and the saga's transactions: a row is added with a key that no row has, and no UPDATE
-- touches a key.
use miniwallet.Base.{
  ℕ, ◌≡◌, ◌⊎◌, inl, inr, refl, String, Option, none, some, ◌∷◌, map, find?, str_eq, ◌==◌,
  if◌then◌else◌, if_intro, arith,
}
use miniwallet.Errors.{ok}
use miniwallet.Models.{Transfer, TransferStatus, Withdrawal}
use miniwallet.Db.{
  Db, Env, insert_ledger_entry, insert_transfer, insert_withdrawal, find_transfer_by_key,
  find_withdrawal_by_key, publish_event,
}
use miniwallet.Schemas.{HashInput, Session}
use miniwallet.Circuit.{Config}
use miniwallet.Recovery.{Draws, resolve_one, set_recovered}
use miniwallet.Recovery.Sweep.{resolve_one_keeps}
use miniwallet.Transfers.{
  Request as TransferRequest, transfer, transfer_row, attempt, write_completed, write_failed,
}
use miniwallet.Withdrawals.{
  World, Request, reserved, initial_row, reserve, write_initiated, update_withdrawal, submit,
  complete, compensate, set_submitted, set_completed, set_failed,
}
use miniwallet.Keys.{map-HaveOwnKeys, withdrawal_key, OwnKeys}

transfer-withdrawals :
    (sha256 : HashInput → String) (env : Env) (r : TransferRequest) (s : Session)
    → (transfer sha256 env r s).1.db.withdrawals ≡ s.db.withdrawals
unfolding transfer attempt write_completed write_failed insert_transfer insert_ledger_entry
    publish_event
transfer-withdrawals sha256 env r s = ground arith

abbrev failed_row : Env → TransferRequest → Transfer
failed_row env r = transfer_row env r TransferStatus.failed (some "INSUFFICIENT_BALANCE")

abbrev completed_row : Env → TransferRequest → Transfer
completed_row env r = transfer_row env r TransferStatus.completed none

transfer-transfers :
    (sha256 : HashInput → String) (env : Env) (r : TransferRequest) (s : Session)
    → let l = (transfer sha256 env r s).1.db.transfers in
      (l ≡ s.db.transfers)
      ⊎ ((find_transfer_by_key r.idempotency_key s.db ≡ none)
          × ((l ≡ failed_row env r ∷ s.db.transfers) ⊎ (l ≡ completed_row env r ∷ s.db.transfers)))
unfolding transfer attempt write_completed write_failed insert_transfer insert_ledger_entry
    publish_event
transfer-transfers sha256 env r s = ground arith

pub transfer-OwnKeys :
    (sha256 : HashInput → String) (env : Env) (r : TransferRequest) (s : Session)
    → OwnKeys s.db
    → OwnKeys (transfer sha256 env r s).1.db
unfolding find_transfer_by_key
transfer-OwnKeys sha256 env r s h = record {
  transfers = elim (transfer-transfers sha256 env r s) [
    | inl same ↦ rw same h.transfers
    | inr (new, inl e) ↦ rw e (new, h.transfers)
    | inr (new, inr e) ↦ rw e (new, h.transfers)
  ];
  withdrawals = rw (transfer-withdrawals sha256 env r s) h.withdrawals;
}

pub reserve-OwnKeys :
    (env : Env) (r : Request) (db : Db) {w : Withdrawal} {db' : Db}
    → reserve env r db ≡ reserved w db'
    → OwnKeys db
    → OwnKeys db'
unfolding reserve write_initiated insert_withdrawal insert_ledger_entry publish_event
    find_withdrawal_by_key
reserve-OwnKeys env r db {db' = db'} e h =
    let new : find? (λ (w : Withdrawal). str_eq w.idempotency_key r.idempotency_key) db.withdrawals
        ≡ none =
      ground arith in
    let kept : db'.transfers ≡ db.transfers = ground arith in
    let added : db'.withdrawals ≡ initial_row env r ∷ db.withdrawals = ground arith in
    record { transfers = rw kept h.transfers; withdrawals = rw added (new, h.withdrawals) }

updated-OwnKeys :
    (i : ℕ) (f : Withdrawal → Withdrawal) {db db' : Db}
    → ((w : Withdrawal) → (f w).idempotency_key ≡ w.idempotency_key)
    → db'.transfers ≡ db.transfers
    → db'.withdrawals ≡ map (λ (w : Withdrawal). if w.id == i then f w else w) db.withdrawals
    → OwnKeys db
    → OwnKeys db'
updated-OwnKeys i f {db} same kept changed h = record {
  transfers = rw kept h.transfers;
  withdrawals = rw changed (
      map-HaveOwnKeys withdrawal_key (λ (w : Withdrawal). if w.id == i then f w else w)
        db.withdrawals
        (λ w.
          if_intro (λ (v : Withdrawal). v.idempotency_key ≡ w.idempotency_key) (w.id == i) (f w) w
            (λ _. same w) (λ _. refl))
        h.withdrawals);
}

pub submit-OwnKeys : (now : ℕ) (w : Withdrawal) (db : Db) → OwnKeys db → OwnKeys (submit now w db)
unfolding submit update_withdrawal
submit-OwnKeys now w db h = updated-OwnKeys w.id (set_submitted now) (λ v. refl) refl refl h

pub complete-OwnKeys :
    (env : Env) (w : Withdrawal) (reference : String) (actor : Option ℕ) (db : Db)
    → OwnKeys db
    → OwnKeys (complete env w reference actor db)
unfolding complete update_withdrawal publish_event
complete-OwnKeys env w reference actor db h =
    updated-OwnKeys w.id (set_completed (env.now 0) reference) (λ v. refl) refl refl h

recovered-OwnKeys :
    (env : Env) (w : Withdrawal) (reference : String) (db : Db)
    → OwnKeys db
    → OwnKeys (miniwallet.Recovery.complete env w reference db)
unfolding miniwallet.Recovery.complete update_withdrawal publish_event
recovered-OwnKeys env w reference db h =
    updated-OwnKeys w.id (set_recovered (env.now 0) reference) (λ v. refl) refl refl h

pub compensate-OwnKeys :
    (env : Env) (w : Withdrawal) (code : String) (actor : Option ℕ) (db : Db) {db' : Db}
    → compensate env w code actor db ≡ ok db'
    → OwnKeys db
    → OwnKeys db'
unfolding compensate insert_ledger_entry publish_event update_withdrawal
compensate-OwnKeys env w code actor db e h =
    updated-OwnKeys w.id (set_failed (env.now 0) code) (λ v. refl) (ground arith) (ground arith) h

pub resolve_one-OwnKeys :
    (cfg : Config) (d : Draws) (i : ℕ) (s : World)
    → OwnKeys s.db
    → OwnKeys (resolve_one cfg d i s).db
resolve_one-OwnKeys cfg d i s h =
    resolve_one_keeps OwnKeys (λ env w reference db k. recovered-OwnKeys env w reference db k)
      (λ env w code db db' k e. compensate-OwnKeys env w code none db e k)
      (λ now w db k. submit-OwnKeys now w db k) cfg d i s h
