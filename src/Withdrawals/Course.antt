-- ===== src/Withdrawals/Course.antt =====
-- A whole run of the saga as changes of the books.
use miniwallet.Base.{ℕ, ◌≡◌, refl, Option, none, some, String, if_intro}
use miniwallet.Errors.{Result}
use miniwallet.Models.{Withdrawal}
use miniwallet.Db.{Db}
use miniwallet.Circuit.{Config}
use miniwallet.Schemas.{HashInput, Cached, WithdrawalResponse}
use miniwallet.Withdrawals.{
  Request, World, Reservation, reserved, ended, reserve, submit, set_submitted,
}
use miniwallet.Withdrawals.Steps.{Draws, create_withdrawal, proceed, by_cache}
use miniwallet.Withdrawals.Conclusion.{Conclusion, completes, refunds, raises, continue-Conclusion}
use miniwallet.Bank.{Changes, none_yet, and_then, Changes-append}
use miniwallet.Withdrawals.Movement.{
  reserve-Change, submit-Change, complete-Change, compensate-Change,
}

Conclusion-Changes :
    (d : Draws) (w : Withdrawal) (actor : Option ℕ) (db : Db)
    (p : Result WithdrawalResponse × World)
    → Conclusion d w actor db p
    → Changes db p.1.db
Conclusion-Changes d w actor db p (completes reference _ e) =
    rw e (and_then none_yet (complete-Change d.tx3 w reference actor db))
Conclusion-Changes d w actor db p (refunds code _ e) =
    and_then none_yet (compensate-Change d.tx3 w code actor db e)
Conclusion-Changes d w actor db p (raises _ _ _ e _) = rw e none_yet

proceed-Changes :
    (sha256 : HashInput → String) (breaker : Option Config) (d : Draws) (r : Request) (s : World)
    (x : Reservation)
    → reserve d.tx1 r s.db ≡ x
    → Changes s.db (proceed sha256 breaker d r s x).1.db
proceed-Changes sha256 breaker d r s (ended res) e = none_yet
proceed-Changes sha256 breaker d r s (reserved w db') e =
    Changes-append
      (and_then (and_then none_yet (reserve-Change d.tx1 r s.db e))
        (submit-Change d.submitted_at w db'))
      (Conclusion-Changes d (set_submitted d.submitted_at w) r.actor_user_id
        (submit d.submitted_at w db') _
        (continue-Conclusion sha256 breaker d r w (record s { db = db' })))

by_cache-Changes :
    (sha256 : HashInput → String) (breaker : Option Config) (d : Draws) (r : Request) (s : World)
    (o : Option Cached)
    → Changes s.db (by_cache sha256 breaker d r s o).1.db
by_cache-Changes sha256 breaker d r s none = proceed-Changes sha256 breaker d r s _ refl
by_cache-Changes sha256 breaker d r s (some c) =
    if_intro (λ (p : Result WithdrawalResponse × World). Changes s.db p.1.db) _ _ _ (λ _. none_yet)
      (λ _. none_yet)

-- A whole run of `create_withdrawal` is a sequence of changes of the books, on every path.
create_withdrawal-Changes :
    (sha256 : HashInput → String) (breaker : Option Config) (d : Draws) (r : Request) (s : World)
    → Changes s.db (create_withdrawal sha256 breaker d r s).1.db
unfolding create_withdrawal
create_withdrawal-Changes sha256 breaker d r s = by_cache-Changes sha256 breaker d r s _
