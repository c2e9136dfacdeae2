-- ===== src/Recovery/Timeouts.antt =====
-- What one resolution of a submitted withdrawal does that has no reference from the rail.
use miniwallet.Base.{ℕ, ◌+◌, ◌≤◌, ◌<◌, ◌≡◌, ◌≢◌, refl, sym, ◌∙◌, none, some, ◌∷◌, true, arith}
use miniwallet.Errors.{Result, ok, raise}
use miniwallet.Models.{Withdrawal, WithdrawalStatus}
use miniwallet.Db.{Db}
use miniwallet.Circuit.{Config}
use miniwallet.Withdrawals.{World, reversal_debit, reversal_credit}
use miniwallet.Withdrawals.Refund.{compensate-Refunded}
use miniwallet.Withdrawals.Keys.{status_in, compensate-status}
use miniwallet.Recovery.{
  Draws, timed_out, recover_submitted, on_timeout, find_withdrawal, by_status, commit, resolve_one,
  compensate,
}
use miniwallet.Recovery.Sweep.{compensate-service}
use miniwallet.Recovery.Laws.{CanCompensate, compensate_can, find-status}

-- A timeout of a submitted withdrawal without a reference, at its own status and reference.
by_reference-Times :
    (cfg : Config) (d : Draws) (w : Withdrawal) (s : World) (st : WithdrawalStatus)
    → st ≡ WithdrawalStatus.submitted
    → w.external_reference ≡ none
    → by_status cfg d w s st ≡ commit s (on_timeout d w s.db, s.circuit, s.rail)
unfolding recover_submitted
by_reference-Times cfg d w s WithdrawalStatus.submitted e n = ground (arith, n)
by_reference-Times cfg d w s WithdrawalStatus.pending e n = absurd (ground (arith, e))
by_reference-Times cfg d w s WithdrawalStatus.completed e n = absurd (ground (arith, e))
by_reference-Times cfg d w s WithdrawalStatus.failed e n = absurd (ground (arith, e))

commit-Refunds :
    (d : Draws) (w : Withdrawal) (s : World) (x : Result Db)
    → compensate d.tx w "TIMEOUT" s.db ≡ x
    → CanCompensate w s.db
    → status_in w.id s.db.withdrawals ≢ none
    → let s' = commit s (x, s.circuit, s.rail) in
      (status_in w.id s'.db.withdrawals ≡ some WithdrawalStatus.failed)
      × (s'.db.ledger_entries
          ≡ reversal_credit d.tx w ∷ reversal_debit d.tx w ∷ s.db.ledger_entries)
      × (s'.rail ≡ s.rail)
      × (s'.circuit ≡ s.circuit)
commit-Refunds d w s (ok db') e c known =
    let e' = sym (compensate-service d.tx w "TIMEOUT" s.db) ∙ e in
    (
      compensate-status d.tx w "TIMEOUT" none s.db known e',
      (compensate-Refunded d.tx w "TIMEOUT" none s.db e').ledger,
      refl,
      refl,
    )
commit-Refunds d w s (raise err) e c known = absurd (
    compensate_can d.tx w "TIMEOUT" none s.db err c
      (sym (compensate-service d.tx w "TIMEOUT" s.db) ∙ e))

-- A submitted withdrawal that can be compensated and has no reference from the rail is left as it is
-- until it has not been updated for the hard timeout of 30 minutes: nothing changes. After that it
-- is failed and refunded, while the rail's state and the circuit breaker's stay as they are.
pub resolve_one_unreferenced :
    (cfg : Config) (d : Draws) (s : World) (i : ℕ) {w : Withdrawal}
    → find_withdrawal i s.db ≡ some w
    → w.status ≡ WithdrawalStatus.submitted
    → w.external_reference ≡ none
    → CanCompensate w s.db
    → let s' = resolve_one cfg d i s in
      (d.checked_at ≤ w.updated_at + 1800 → s' ≡ s)
      × (w.updated_at + 1800 < d.checked_at
          → (status_in w.id s'.db.withdrawals ≡ some WithdrawalStatus.failed)
            × (s'.db.ledger_entries
                ≡ reversal_credit d.tx w ∷ reversal_debit d.tx w ∷ s.db.ledger_entries)
            × (s'.rail ≡ s.rail)
            × (s'.circuit ≡ s.circuit))
unfolding resolve_one on_timeout
resolve_one_unreferenced cfg d s i {w} found submitted reference c =
    rw (found, by_reference-Times cfg d w s w.status submitted reference)
      (
        (λ early. ground arith),
        (λ late.
            let e : timed_out d w ≡ true = ground arith in
            rw e (
              commit-Refunds d w s _ refl c
                (λ e. ground (arith, e, find-status i s.db.withdrawals found)))),
      )
