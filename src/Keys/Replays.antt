-- ===== src/Keys/Replays.antt =====
-- The look-up of a replay finds the row with the key, in every database that the service reaches.
use miniwallet.Base.{◌≡◌, String, some, All, All-intro}
use miniwallet.Models.{Transfer, Withdrawal}
use miniwallet.Db.{Db, find_transfer_by_key, find_withdrawal_by_key}
use miniwallet.Schemas.{HashInput}
use miniwallet.System.{
  Step, Reach, starts, steps, registers, opens, seeds, transfers, deposits, reserves, submits,
  completes, refunds, recovers,
}
use miniwallet.Keys.{
  find_own, transfer_key, withdrawal_key, OwnKeys, SameRows-OwnKeys, registers-SameRows,
  open_account-SameRows, seed-SameRows, simulate_deposit-SameRows,
}
use miniwallet.Keys.Rows.{
  transfer-OwnKeys, reserve-OwnKeys, submit-OwnKeys, complete-OwnKeys, compensate-OwnKeys,
  resolve_one-OwnKeys,
}

Step-OwnKeys :
    (sha256 : HashInput → String) {db db' : Db} → Step sha256 db db' → OwnKeys db → OwnKeys db'
Step-OwnKeys sha256 {db} (registers u e) h = SameRows-OwnKeys (registers-SameRows u db e) h
Step-OwnKeys sha256 {db} (opens env i) h = SameRows-OwnKeys (open_account-SameRows env i db) h
Step-OwnKeys sha256 {db} (seeds env i x k u) h = SameRows-OwnKeys (seed-SameRows env i x k u db) h
Step-OwnKeys sha256 {db} (transfers env q cache) h =
    transfer-OwnKeys sha256 env q (record { db = db; cache = cache }) h
Step-OwnKeys sha256 {db} (deposits env w) h =
    SameRows-OwnKeys (simulate_deposit-SameRows env w db) h
Step-OwnKeys sha256 {db} (reserves env q e) h = reserve-OwnKeys env q db e h
Step-OwnKeys sha256 {db} (submits now w) h = submit-OwnKeys now w db h
Step-OwnKeys sha256 {db} (completes env w reference actor) h =
    complete-OwnKeys env w reference actor db h
Step-OwnKeys sha256 {db} (refunds env w code actor e) h = compensate-OwnKeys env w code actor db e h
Step-OwnKeys sha256 {db} (recovers cfg d i s e) h = resolve_one-OwnKeys cfg d i s (rw e h)

Reach-OwnKeys : (sha256 : HashInput → String) {db : Db} → Reach sha256 db → OwnKeys db
Reach-OwnKeys sha256 starts = record { transfers = tt; withdrawals = tt }
Reach-OwnKeys sha256 (steps r s) = Step-OwnKeys sha256 s (Reach-OwnKeys sha256 r)

-- In every database that the service reaches, whatever has happened to the rows since, the key of a
-- transfer finds that transfer, and the key of a withdrawal finds that withdrawal as it is now: a
-- replay is answered from the one row that its key belongs to.
pub Reach-replays :
    (sha256 : HashInput → String) {db : Db}
    → Reach sha256 db
    → All (λ (t : Transfer). find_transfer_by_key t.idempotency_key db ≡ some t) db.transfers
      × All
          (λ (w : Withdrawal). find_withdrawal_by_key w.idempotency_key db ≡ some w)
          db.withdrawals
unfolding find_transfer_by_key find_withdrawal_by_key
Reach-replays sha256 {db} r =
    let h = Reach-OwnKeys sha256 r in
    (
      All-intro (λ (t : Transfer). find_transfer_by_key t.idempotency_key db ≡ some t) db.transfers
          (λ t. find_own transfer_key t db.transfers h.transfers),
      All-intro (λ (w : Withdrawal). find_withdrawal_by_key w.idempotency_key db ≡ some w)
          db.withdrawals (λ w. find_own withdrawal_key w db.withdrawals h.withdrawals),
    )
