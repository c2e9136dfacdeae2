-- ===== src/Recovery/Sweep.antt =====
-- The sweep as a whole: what it claims, and that it keeps the ledger sound.
use miniwallet.Base.{
  ℕ, ◌≡◌, refl, sym, ◌∙◌, Option, none, some, List, [], ◌∷◌, Bool, String, not, if_intro, str_eq,
}
use miniwallet.Errors.{Result, ok, raise}
use miniwallet.Models.{Withdrawal, WithdrawalStatus}
use miniwallet.Db.{Db, Env, publish_event}
use miniwallet.Ledger.Sums.{IsSound}
use miniwallet.Rail.{Rail, RailState, RailStatus, query_status}
use miniwallet.Circuit.{
  Circuit, Config, CallReply, result, rail_failed, circuit_open, is_call_allowed,
}
use miniwallet.Withdrawals.{
  World, update_withdrawal, submit, set_submitted, compensate as service_compensate,
}
use miniwallet.Withdrawals.Refund.{compensate-IsSound}
use miniwallet.Recovery.{
  Draws, complete, settle_pending, recover_pending, on_timeout, recover_submitted, by_reference,
  by_state, by_rail_state, find_withdrawal, by_status, commit, resolve_row, resolve_one,
  resolve_all, recover_stuck_withdrawals, claim_stuck, timed_out, or_rejected, compensate,
}

-- The worker's compensation is the service's, with no actor.
pub compensate-service :
    (env : Env) (w : Withdrawal) (code : String) (db : Db)
    → compensate env w code db ≡ service_compensate env w code none db
unfolding compensate service_compensate
compensate-service env w code db = refl

-- What every transaction of a resolution keeps, the sweep keeps.
module _ (P : Db → Type 0)
    (completes_keeps : (env : Env) (w : Withdrawal) (reference : String) (db : Db)
      → P db
      → P (complete env w reference db))
    (compensates_keeps : (env : Env) (w : Withdrawal) (code : String) (db db' : Db)
      → P db
      → service_compensate env w code none db ≡ ok db'
      → P db')
    (submits_keeps : (now : ℕ) (w : Withdrawal) (db : Db) → P db → P (submit now w db)) where
  -- What holds of the database of a result, if there is one.
  abbrev OnSuccess : Result Db → Type 0
  OnSuccess (ok db) = P db
  OnSuccess (raise e) = Unit

  compensated-OnSuccess :
      (d : Draws) (w : Withdrawal) (code : String) (db : Db) (x : Result Db)
      → P db
      → compensate d.tx w code db ≡ x
      → OnSuccess x
  compensated-OnSuccess d w code db (ok db') h e =
      compensates_keeps d.tx w code db db' h (sym (compensate-service d.tx w code db) ∙ e)
  compensated-OnSuccess d w code db (raise err) h e = tt

  settle_pending-OnSuccess :
      (d : Draws) (w : Withdrawal) (reply : CallReply) (db : Db)
      → P db
      → OnSuccess (settle_pending d w reply db)
  unfolding settle_pending
  settle_pending-OnSuccess d w (result reference) db h = completes_keeps d.tx w reference db h
  settle_pending-OnSuccess d w (rail_failed code) db h = compensated-OnSuccess d w code db _ h refl
  settle_pending-OnSuccess d w circuit_open db h =
      compensated-OnSuccess d w "CIRCUIT_OPEN" db _ h refl

  recover_pending-OnSuccess :
      (cfg : Config) (d : Draws) (w : Withdrawal) (s : World)
      → P s.db
      → OnSuccess (recover_pending cfg d w s).0
  unfolding recover_pending
  recover_pending-OnSuccess cfg d w s h =
      if_intro (λ (p : Result Db × Circuit × Rail). OnSuccess p.0)
        (not (is_call_allowed cfg d.checked_at s.circuit)) _ _
        (λ _. compensated-OnSuccess d w "CIRCUIT_OPEN" s.db _ h refl)
        (λ _.
          settle_pending-OnSuccess d (set_submitted d.submitted_at w) _
            (submit d.submitted_at w s.db) (submits_keeps d.submitted_at w s.db h))

  on_timeout-OnSuccess :
      (d : Draws) (w : Withdrawal) (db : Db) → P db → OnSuccess (on_timeout d w db)
  unfolding on_timeout
  on_timeout-OnSuccess d w db h =
      if_intro OnSuccess (timed_out d w) (compensate d.tx w "TIMEOUT" db) (ok db)
        (λ _. compensated-OnSuccess d w "TIMEOUT" db _ h refl) (λ _. h)

  by_rail_state-OnSuccess :
      (d : Draws) (w : Withdrawal) (reference : String) (x : RailState) (reason : Option String)
      (db : Db)
      → P db
      → OnSuccess (by_rail_state d w reference reason db x)
  by_rail_state-OnSuccess d w reference RailState.completed reason db h =
      completes_keeps d.tx w reference db h
  by_rail_state-OnSuccess d w reference RailState.failed reason db h =
      compensated-OnSuccess d w (or_rejected reason) db _ h refl
  by_rail_state-OnSuccess d w reference RailState.processing reason db h = h

  by_state-OnSuccess :
      (d : Draws) (w : Withdrawal) (reference : String) (o : Option RailStatus) (db : Db)
      → P db
      → OnSuccess (by_state d w reference o db)
  by_state-OnSuccess d w reference none db h = on_timeout-OnSuccess d w db h
  by_state-OnSuccess d w reference (some st) db h =
      by_rail_state-OnSuccess d w reference st.state st.reason db h

  by_reference-OnSuccess :
      (query : String → Option RailStatus) (d : Draws) (w : Withdrawal) (o : Option String)
      (db : Db)
      → P db
      → OnSuccess (by_reference query d w o db)
  by_reference-OnSuccess query d w none db h = on_timeout-OnSuccess d w db h
  by_reference-OnSuccess query d w (some reference) db h =
      if_intro OnSuccess (str_eq reference "") (on_timeout d w db)
        (by_state d w reference (query reference) db) (λ _. on_timeout-OnSuccess d w db h)
        (λ _. by_state-OnSuccess d w reference (query reference) db h)

  commit_keeps :
      (s : World) (p : Result Db × Circuit × Rail) → P s.db → OnSuccess p.0 → P (commit s p).db
  commit_keeps s (ok db', c, rail) h k = k
  commit_keeps s (raise e, c, rail) h k = h

  by_status_keeps :
      (cfg : Config) (d : Draws) (w : Withdrawal) (s : World) (st : WithdrawalStatus)
      → P s.db
      → P (by_status cfg d w s st).db
  unfolding recover_submitted
  by_status_keeps cfg d w s WithdrawalStatus.pending h =
      commit_keeps s _ h (recover_pending-OnSuccess cfg d w s h)
  by_status_keeps cfg d w s WithdrawalStatus.submitted h =
      commit_keeps s _ h
        (by_reference-OnSuccess (λ r. some (query_status r)) d w w.external_reference s.db h)
  by_status_keeps cfg d w s WithdrawalStatus.completed h = h
  by_status_keeps cfg d w s WithdrawalStatus.failed h = h

  resolve_row_keeps :
      (cfg : Config) (d : Draws) (s : World) (o : Option Withdrawal)
      → P s.db
      → P (resolve_row cfg d s o).db
  resolve_row_keeps cfg d s none h = h
  resolve_row_keeps cfg d s (some w) h = by_status_keeps cfg d w s w.status h

  pub resolve_one_keeps :
      (cfg : Config) (d : Draws) (i : ℕ) (s : World) → P s.db → P (resolve_one cfg d i s).db
  unfolding resolve_one
  resolve_one_keeps cfg d i s h = resolve_row_keeps cfg d s (find_withdrawal i s.db) h

  resolve_all_keeps :
      (cfg : Config) (draws : ℕ → Draws) (l : List ℕ) (s : World)
      → P s.db
      → P (resolve_all cfg draws l s).db
  unfolding resolve_all
  resolve_all_keeps cfg draws [] s h = h
  resolve_all_keeps cfg draws (i ∷ l) s h =
      resolve_all_keeps cfg draws l _ (resolve_one_keeps cfg (draws i) i s h)

  pub recover_stuck_withdrawals_keeps :
      (cfg : Config) (locked : ℕ → Bool) (now : ℕ) (draws : ℕ → Draws) (s : World)
      → P s.db
      → P (recover_stuck_withdrawals cfg locked now draws s).db
  unfolding recover_stuck_withdrawals
  recover_stuck_withdrawals_keeps cfg locked now draws s h =
      resolve_all_keeps cfg draws (claim_stuck locked now s.db) s h

complete-IsSound :
    (env : Env) (w : Withdrawal) (reference : String) (db : Db)
    → IsSound db.ledger_entries
    → IsSound (complete env w reference db).ledger_entries
unfolding complete update_withdrawal publish_event
complete-IsSound env w reference db h = h

submit-IsSound :
    (now : ℕ) (w : Withdrawal) (db : Db)
    → IsSound db.ledger_entries
    → IsSound (submit now w db).ledger_entries
unfolding submit update_withdrawal
submit-IsSound now w db h = h

pub resolve_one-IsSound :
    (cfg : Config) (d : Draws) (i : ℕ) (s : World)
    → IsSound s.db.ledger_entries
    → IsSound (resolve_one cfg d i s).db.ledger_entries
resolve_one-IsSound =
    resolve_one_keeps (λ (db : Db). IsSound db.ledger_entries) complete-IsSound
      (λ env w code db db' h e. compensate-IsSound env w code none db e h) submit-IsSound

-- A sweep keeps the books balanced and overdraws no account but the system's, whatever it finds and
-- whatever the rail answers.
pub recover_stuck_withdrawals-IsSound :
    (cfg : Config) (locked : ℕ → Bool) (now : ℕ) (draws : ℕ → Draws) (s : World)
    → IsSound s.db.ledger_entries
    → IsSound (recover_stuck_withdrawals cfg locked now draws s).db.ledger_entries
recover_stuck_withdrawals-IsSound =
    recover_stuck_withdrawals_keeps (λ (db : Db). IsSound db.ledger_entries) complete-IsSound
      (λ env w code db db' h e. compensate-IsSound env w code none db e h) submit-IsSound

-- A row that has ended.
abbrev pub HasEnded : WithdrawalStatus → Type 0
HasEnded WithdrawalStatus.completed = Unit
HasEnded WithdrawalStatus.failed = Unit
HasEnded _ = ⊥

by_status-ended :
    (cfg : Config) (d : Draws) (w : Withdrawal) (s : World) (st : WithdrawalStatus)
    → HasEnded st
    → by_status cfg d w s st ≡ s
by_status-ended cfg d w s WithdrawalStatus.completed h = refl
by_status-ended cfg d w s WithdrawalStatus.failed h = refl
by_status-ended cfg d w s WithdrawalStatus.pending h = absurd h
by_status-ended cfg d w s WithdrawalStatus.submitted h = absurd h

-- A withdrawal that a user's request or another sweeper ended between the claim and the resolution
-- is left alone: nothing changes, and the rail is not called.
pub resolve_one_ended :
    (cfg : Config) (d : Draws) (s : World) (i : ℕ) {w : Withdrawal}
    → find_withdrawal i s.db ≡ some w
    → HasEnded w.status
    → resolve_one cfg d i s ≡ s
unfolding resolve_one
resolve_one_ended cfg d s i {w} found h = rw found (by_status-ended cfg d w s w.status h)
