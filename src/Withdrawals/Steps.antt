-- ===== src/Withdrawals/Steps.antt =====
-- `create_withdrawal` as the sequence of its steps: the cached answer, TX 1, the cache, the flip to
-- submitted, the rail behind the circuit breaker, and TX 3a or TX 3b.
use miniwallet.Base.{
  ℕ, String, Bool, true, false, Option, none, some, not, str_eq, ◌<>◌, if◌then◌else◌,
}
use miniwallet.Errors.{Result, ok, raise, idempotency_conflict, validation_error}
use miniwallet.Models.{Withdrawal}
use miniwallet.Db.{Db, Env}
use miniwallet.Rail.{Rail, RailReply, accepted, rail_error, Draw, send_withdrawal}
use miniwallet.Circuit.{
  Circuit, Config, CallReply, result, rail_failed, circuit_open, admit, report,
}
use miniwallet.Schemas.{
  WithdrawalResponse, CachedResponse, transfer_response, withdrawal_response, Cached, HashInput,
  withdrawal_input, cache_get, cache_set,
}
use miniwallet.Withdrawals.{
  Request, World, Reservation, reserved, ended, reserve, submit, complete, compensate,
  set_submitted, set_completed, set_failed, withdrawal_to_response,
}

-- What one call of `create_withdrawal` draws: the transactions' ids and times, and the rail's.
pub record Draws : Type 0 where
  pub tx1 : Env
  pub submitted_at : ℕ
  pub call_at : ℕ
  pub returned_at : ℕ
  pub rail : Draw
  pub tx3 : Env

-- `circuit_breaker.call(rail.send_withdrawal, …)`: the rail is called only if the circuit admits it.
abbrev admitted_call : Config → ℕ → Draw → Rail → Bool × Circuit → CallReply × Circuit × Rail
admitted_call cfg later d rail (false, c) = (circuit_open, c, rail)
admitted_call cfg later d rail (true, c) =
    let (reply, rail') = send_withdrawal d rail in
    let (r, c') = report cfg later reply c in (r, c', rail')

unfoldable pub guarded_send : Config → ℕ → ℕ → Draw → Circuit → Rail → CallReply × Circuit × Rail
guarded_send cfg now later d c rail = admitted_call cfg later d rail (admit cfg now c)

-- `rail.send_withdrawal(…)`, where no circuit breaker was given
abbrev plain_reply : RailReply → CallReply
plain_reply (accepted reference) = result reference
plain_reply (rail_error code) = rail_failed code

-- The `if circuit_breaker:` around the call.
unfoldable pub send : Option Config → Draws → World → CallReply × World
send (some cfg) d s =
    let (reply, circuit', rail') =
      guarded_send cfg d.call_at d.returned_at d.rail s.circuit s.rail in
    (reply, record s { circuit = circuit'; rail = rail' })
send none d s =
    let (reply, rail') = send_withdrawal d.rail s.rail in
    (plain_reply reply, record s { rail = rail' })

abbrev pub compensated :
    Draws → Withdrawal → String → World → Result Db → Result WithdrawalResponse × World
compensated d w code s (ok db') =
    (ok (withdrawal_to_response (set_failed (d.tx3.now 0) code w)), record s { db = db' })
compensated d w code s (raise e) = (raise e, s)

-- TX 3a or TX 3b, by the rail's reply.
unfoldable pub conclude :
    Draws → Withdrawal → Option ℕ → CallReply → World → Result WithdrawalResponse × World
conclude d w actor (result reference) s = (
  ok (withdrawal_to_response (set_completed (d.tx3.now 0) reference w)),
  record s { db = complete d.tx3 w reference actor s.db },
)
conclude d w actor (rail_failed code) s =
    compensated d w code s (compensate d.tx3 w code actor s.db)
conclude d w actor circuit_open s =
    compensated d w "CIRCUIT_OPEN" s (compensate d.tx3 w "CIRCUIT_OPEN" actor s.db)

module _ (sha256 : HashInput → String) where
  -- `_hash_request`
  abbrev pub request_hash : Request → String
  request_hash r = sha256 (
      withdrawal_input r.account_id r.amount_text r.currency r.destination_type
        r.destination_details)

  abbrev pub cache_key : Request → String
  cache_key r = "idempotency:withdrawal:" <> r.idempotency_key

  abbrev replay : CachedResponse → Result WithdrawalResponse
  replay (withdrawal_response t) = ok t
  replay (transfer_response _) = raise validation_error

  -- Step 1, on a hit.
  abbrev on_cached : Request → Cached → World → Result WithdrawalResponse × World
  on_cached r c s =
      if not (str_eq c.request_hash (request_hash r))
      then (raise idempotency_conflict, s)
      else (replay c.response, s)

  -- After TX 1: the pending response is cached, the row is submitted, the rail is called.
  unfoldable pub continue :
      Option Config → Draws → Request → Withdrawal → World → Result WithdrawalResponse × World
  continue breaker d r w s =
      let s₁ = record s {
        cache =
            cache_set (cache_key r)
              (record {
                request_hash = request_hash r;
                response = withdrawal_response (withdrawal_to_response w);
              })
              s.cache;
        db = submit d.submitted_at w s.db;
      } in
      let (reply, s₂) = send breaker d s₁ in
      conclude d (set_submitted d.submitted_at w) r.actor_user_id reply s₂

  abbrev pub proceed :
      Option Config → Draws → Request → World → Reservation → Result WithdrawalResponse × World
  proceed breaker d r s (reserved w db') = continue breaker d r w (record s { db = db' })
  proceed breaker d r s (ended res) = (res, s)

  abbrev pub by_cache :
      Option Config → Draws → Request → World → Option Cached → Result WithdrawalResponse × World
  by_cache breaker d r s (some c) = on_cached r c s
  by_cache breaker d r s none = proceed breaker d r s (reserve d.tx1 r s.db)

  -- `create_withdrawal`
  unfoldable pub create_withdrawal :
      Option Config → Draws → Request → World → Result WithdrawalResponse × World
  create_withdrawal breaker d r s = by_cache breaker d r s (cache_get (cache_key r) s.cache)
