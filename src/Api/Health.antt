-- ===== src/Api/Health.antt =====
-- app/routers/health.py. What `SELECT 1` and `PING` do is the caller's argument; the status of the
-- circuit breaker is read from Redis too.
use miniwallet.Base.{Bool, String, ◌&&◌, if◌then◌else◌}
use miniwallet.Errors.{Result, ok, raise, redis_error}
use miniwallet.Circuit.{Circuit, Status, get_status}

pub record HealthResponse : Type 0 where
  pub status : String
  pub database : String
  pub redis : String
  pub circuit_breaker : Status

abbrev availability : Bool → String
availability b = if b then "ok" else "unavailable"

-- `circuit_breaker.get_status()`, which raises where Redis does not answer.
abbrev read_status : Bool → Circuit → Result Status
read_status redis_ok c = if redis_ok then ok (get_status c) else raise redis_error

abbrev report : Bool → Bool → Result Status → Result HealthResponse
report db_ok redis_ok (raise e) = raise e
report db_ok redis_ok (ok st) = ok (record {
  status = if db_ok && redis_ok then "ok" else "degraded";
  database = availability db_ok;
  redis = availability redis_ok;
  circuit_breaker = st;
})

-- `health`
unfoldable pub health : Bool → Bool → Circuit → Result HealthResponse
health db_ok redis_ok c = report db_ok redis_ok (read_status redis_ok c)
