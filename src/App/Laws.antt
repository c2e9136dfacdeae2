-- ===== src/App/Laws.antt =====
-- The application's calls, with the sweeper between them, stay among the databases of the service.
use miniwallet.Base.{ℕ, ◌≡◌, ◌≢◌, refl, String, Bool, Option, List, [], ◌∷◌}
use miniwallet.Errors.{Result, ok, raise}
use miniwallet.Models.{User}
use miniwallet.Db.{system_account_id}
use miniwallet.Ledger.{get_balance}
use miniwallet.Ledger.Sums.{IsSound}
use miniwallet.Schemas.{HashInput}
use miniwallet.System.{Reach, starts, steps, recovers, initial, Reach-IsSound, Reach-Mirrors}
use miniwallet.Activity.Replay.{shown}
use miniwallet.Auth.{get_current_user}
use miniwallet.Circuit.{Config}
use miniwallet.Withdrawals.{World}
use miniwallet.Recovery.{
  Draws as RecoveryDraws, resolve_all, claim_stuck, recover_stuck_withdrawals,
}
use miniwallet.Api.{Reply, Validation, accepts, rejects, crashes, validated, authenticated}
use miniwallet.Api.Payments.{ScheduledPayment}
use miniwallet.Scheduler.{poll_and_execute, claim_due, execute_payment}
use miniwallet.Api.Reach.{
  register-Reach, open_account-Reach, create_transfer-Reach, seed-Reach, simulate_deposit-Reach,
  create_withdrawal-Reach, post_payment-Reach, list_payments-Reach, delete_payment-Reach,
}
use miniwallet.App.{
  Setting, Draws, Server, Call, Answer, post_register, post_login, post_refresh, get_me,
  post_account, get_my_account, get_my_balance, get_my_transactions, post_transfer, post_withdrawal,
  post_seed, post_simulate_deposit, get_transfer_by_id, get_withdrawal_by_id, get_deposit_by_id,
  post_scheduled_payment, list_scheduled_payments, delete_scheduled_payment, run, handle, or_empty,
  session_of,
}

module _ (sha256 : HashInput → String) where
  -- The database of a server that the service can reach.
  abbrev pub Served : Server → Type 0
  Served s = Reach sha256 s.world.db

  validated-Served :
      (v : Validation) (s : Server) (p : Reply Answer × Server)
      → Served s
      → Served p.1
      → Served (validated v s p).1
  validated-Served accepts s p h k = k
  validated-Served rejects s p h k = h
  validated-Served crashes s p h k = h

  authenticated-Served :
      (x : Result User) (s : Server) (k : User → Reply Answer × Server)
      → Served s
      → ((u : User) → Served (k u).1)
      → Served (authenticated x s k).1
  authenticated-Served (ok u) s k h f = f u
  authenticated-Served (raise e) s k h f = h

module _ (c : Setting) (d : Draws) (s : Server) (h : Served c.sha256 s) where
  run-Served : (call : Call) (u : User) → Served c.sha256 (run c d s call u).1
  run-Served get_me u = h
  run-Served post_account u = (open_account-Reach c.sha256 d.env u s.world.db h)
  run-Served get_my_account u = h
  run-Served get_my_balance u = h
  run-Served (get_my_transactions p) u = validated-Served c.sha256 _ s _ h h
  run-Served (post_transfer body key) u =
      validated-Served c.sha256 _ s _ h
        ((create_transfer-Reach c.sha256 c.texts d.env body (or_empty key) u (session_of s) h))
  run-Served (post_withdrawal body key) u =
      validated-Served c.sha256 _ s _ h
        ((create_withdrawal-Reach c.sha256 c.texts d.now d.saga body (or_empty key) u s.world h))
  run-Served (post_seed body key) u =
      validated-Served c.sha256 _ s _ h
        ((seed-Reach c.sha256 c.texts c.app_env d.env body (or_empty key) u s.world.db h))
  run-Served (get_transfer_by_id i) u = h
  run-Served (get_withdrawal_by_id i) u = h
  run-Served (get_deposit_by_id i) u = h
  run-Served (post_scheduled_payment body) u =
      validated-Served c.sha256 _ s _ h ((post_payment-Reach c.sha256 c.texts body u s.world.db h))
  run-Served list_scheduled_payments u = (list_payments-Reach c.sha256 u s.world.db h)
  run-Served (delete_scheduled_payment i) u =
      (delete_payment-Reach c.sha256 c.texts i u s.world.db h)
  run-Served (post_register body) u = h
  run-Served (post_login body) u = h
  run-Served (post_refresh token) u = h
  run-Served (post_simulate_deposit body) u = h

  caller-Served :
      (bearer : Option String) (call : Call)
      → Served c.sha256
          (authenticated (get_current_user c.security d.now bearer s.world.db) s (run c d s call)).1
  caller-Served bearer call = authenticated-Served c.sha256 _ s _ h (run-Served call)

  handle-Served :
      (bearer : Option String) (call : Call) → Served c.sha256 (handle c d bearer call s).1
  unfolding handle
  handle-Served bearer (post_register body) =
      validated-Served c.sha256 _ s _ h
        (register-Reach c.sha256 c.security d.env body.email body.password s.world.db h)
  handle-Served bearer (post_login body) = h
  handle-Served bearer (post_refresh token) = h
  handle-Served bearer (post_simulate_deposit body) =
      validated-Served c.sha256 _ s _ h
        (simulate_deposit-Reach c.sha256 c.texts c.app_env d.env body s.world.db h)
  handle-Served bearer get_me = caller-Served bearer get_me
  handle-Served bearer post_account = caller-Served bearer post_account
  handle-Served bearer get_my_account = caller-Served bearer get_my_account
  handle-Served bearer get_my_balance = caller-Served bearer get_my_balance
  handle-Served bearer list_scheduled_payments = caller-Served bearer list_scheduled_payments
  handle-Served bearer (get_my_transactions p) = caller-Served bearer (get_my_transactions p)
  handle-Served bearer (post_transfer body key) = caller-Served bearer (post_transfer body key)
  handle-Served bearer (post_withdrawal body key) = caller-Served bearer (post_withdrawal body key)
  handle-Served bearer (post_seed body key) = caller-Served bearer (post_seed body key)
  handle-Served bearer (get_transfer_by_id i) = caller-Served bearer (get_transfer_by_id i)
  handle-Served bearer (get_withdrawal_by_id i) = caller-Served bearer (get_withdrawal_by_id i)
  handle-Served bearer (get_deposit_by_id i) = caller-Served bearer (get_deposit_by_id i)
  handle-Served bearer (post_scheduled_payment body) =
      caller-Served bearer (post_scheduled_payment body)
  handle-Served bearer (delete_scheduled_payment i) =
      caller-Served bearer (delete_scheduled_payment i)

-- What happens to a server: a call, a sweep of `_recovery_loop`, or a round of `scheduler_loop`.
pub data Happening : Type 0 where
  calls : Draws → Option String → Call → Happening
  sweeps : Config → (ℕ → Bool) → ℕ → (ℕ → RecoveryDraws) → Happening
  polls : (ℕ → String) → List ScheduledPayment → Happening

abbrev pub happen : Setting → Happening → Server → Server
happen c (calls d bearer call) s = (handle c d bearer call s).1
happen c (sweeps cfg locked now draws) s = record s {
  world = recover_stuck_withdrawals cfg locked now draws s.world;
}
happen c (polls isoformat payments) s =
    let s' = poll_and_execute isoformat payments (session_of s) in
    record s { world = record s.world { db = s'.db; cache = s'.cache } }

-- The server after all of them, the first one first.
abbrev pub serve : Setting → List Happening → Server → Server
serve c [] s = s
serve c (e ∷ l) s = serve c l (happen c e s)

resolve_all-Served :
    (sha256 : HashInput → String) (cfg : Config) (draws : ℕ → RecoveryDraws) (l : List ℕ)
    (w : World)
    → Reach sha256 w.db
    → Reach sha256 (resolve_all cfg draws l w).db
unfolding resolve_all
resolve_all-Served sha256 cfg draws [] w h = h
resolve_all-Served sha256 cfg draws (i ∷ l) w h =
    resolve_all-Served sha256 cfg draws l _ (steps h (recovers cfg (draws i) i w refl))

sweep-Served :
    (sha256 : HashInput → String) (cfg : Config) (locked : ℕ → Bool) (now : ℕ)
    (draws : ℕ → RecoveryDraws) (w : World)
    → Reach sha256 w.db
    → Reach sha256 (recover_stuck_withdrawals cfg locked now draws w).db
unfolding recover_stuck_withdrawals
sweep-Served sha256 cfg locked now draws w h =
    resolve_all-Served sha256 cfg draws (claim_stuck locked now w.db) w h

serve-Served :
    (c : Setting) (l : List Happening) (s : Server)
    → Served c.sha256 s
    → Served c.sha256 (serve c l s)
unfolding poll_and_execute claim_due execute_payment
serve-Served c [] s h = h
serve-Served c (calls d bearer call ∷ l) s h =
    serve-Served c l _ (handle-Served c d s h bearer call)
serve-Served c (sweeps cfg locked now draws ∷ l) s h =
    serve-Served c l _ (sweep-Served c.sha256 cfg locked now draws s.world h)
serve-Served c (polls isoformat payments ∷ l) s h = serve-Served c l _ h

-- Whatever calls are made of a server that starts on the migrated database, with whatever tokens
-- and bodies whose amounts have at most four decimals, which the source does not check and the model
-- takes for granted, and whatever sweeps and rounds of the scheduler run between them: the ledger
-- stays balanced, no account but the system's is overdrawn, and each user's balance is the one that
-- the events written to the outbox show.
pub serve-IsSound :
    (c : Setting) (l : List Happening) (s : Server)
    → s.world.db ≡ initial
    → IsSound (serve c l s).world.db.ledger_entries
      × ((a : ℕ)
          → a ≢ system_account_id
          → shown (serve c l s).world.db a ≡ get_balance (serve c l s).world.db a)
serve-IsSound c l s h =
    let begun : Served c.sha256 s = rw h starts in
    let reached = serve-Served c l s begun in
    (Reach-IsSound c.sha256 reached, Reach-Mirrors c.sha256 reached)
