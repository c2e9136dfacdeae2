-- ===== src/Circuit.antt =====
-- app/circuit_breaker.py: the circuit breaker over its four Redis keys. Each Lua script is one step.
-- A key that is absent reads as CLOSED, 0 or none; the probe key holds the second at which it expires.
pub mod Laws
pub mod Trips
use miniwallet.Base.{
  ℕ, suc, ◌+◌, String, Bool, true, false, not, Option, none, some, ltb, leb, if◌then◌else◌,
}
use miniwallet.Rail.{RailReply, accepted, rail_error}

pub data CircuitState : Type 0 where
  closed open_ half_open : CircuitState

-- The keys under circuit_breaker:.
pub record Circuit : Type 0 where
  pub state : Option CircuitState
  pub failure_count : ℕ
  pub last_failure_at : Option ℕ
  pub probe_active : Option ℕ

-- The arguments of `CircuitBreaker`.
pub record Config : Type 0 where
  pub failure_threshold : ℕ
  pub cooldown_seconds : ℕ

abbrev pub default_config : Config
default_config = record { failure_threshold = 3; cooldown_seconds = 30 }

abbrev pub probe_ttl_seconds : ℕ
probe_ttl_seconds = 60

-- `redis.get(_KEY_STATE) or STATE_CLOSED`
abbrev pub state_or_closed : Option CircuitState → CircuitState
state_or_closed none = closed
state_or_closed (some s) = s

abbrev pub alive : Option ℕ → ℕ → Bool
alive none now = false
alive (some expiry) now = ltb now expiry

-- `redis.exists(_KEY_PROBE_ACTIVE)`
abbrev pub probe_exists : Circuit → ℕ → Bool
probe_exists c now = alive c.probe_active now

-- _RECORD_FAILURE_LUA
unfoldable pub record_failure : Config → ℕ → Circuit → Circuit
record_failure cfg now c = elim (state_or_closed c.state) [
  | half_open ↦ record {
    state = some open_;
    failure_count = 1;
    last_failure_at = some now;
    probe_active = none;
  }
  | _ ↦ record {
    state = if leb cfg.failure_threshold (suc c.failure_count) then some open_ else c.state;
    failure_count = suc c.failure_count;
    last_failure_at = some now;
    probe_active = c.probe_active;
  }
]

-- _RECORD_SUCCESS_LUA
unfoldable pub record_success : Circuit → Circuit
record_success c = record {
  state = some closed;
  failure_count = 0;
  last_failure_at = none;
  probe_active = none;
}

-- SET probe_active NX EX ttl
unfoldable pub set_probe : ℕ → Circuit → Bool × Circuit
set_probe now c =
    if probe_exists c now
    then (false, c)
    else (true, record c { probe_active = some (now + probe_ttl_seconds) })

abbrev half_opened : Bool × Circuit → Bool × Circuit
half_opened (true, c) = (true, record c { state = some half_open })
half_opened (false, c) = (false, c)

-- _CLAIM_PROBE_LUA
unfoldable pub claim_probe : ℕ → Circuit → Bool × Circuit
unfolding set_probe
claim_probe now c = elim (state_or_closed c.state) [
  | open_ ↦ half_opened (set_probe now c)
  | _ ↦ (false, c)
]

abbrev since : Config → ℕ → Option ℕ → Bool
since cfg now none = true
since cfg now (some last) = leb (last + cfg.cooldown_seconds) now

-- `_cooldown_elapsed`
unfoldable pub cooldown_elapsed : Config → ℕ → Circuit → Bool
cooldown_elapsed cfg now c = since cfg now c.last_failure_at

-- `is_call_allowed`
unfoldable pub is_call_allowed : Config → ℕ → Circuit → Bool
is_call_allowed cfg now c = elim (state_or_closed c.state) [
  | closed ↦ true
  | open_ ↦ cooldown_elapsed cfg now c
  | half_open ↦ not (probe_exists c now)
]

-- The part of `call` before `fn` runs, as separate commands of Redis: the state and the time of the
-- last failure have been read, and the circuit is the one at which the probe is claimed. Whether
-- `fn` may run, and the keys after.
unfoldable pub admit_having_read : ℕ → CircuitState → Bool → Circuit → Bool × Circuit
unfolding claim_probe set_probe
admit_having_read now closed elapsed c = (true, c)
admit_having_read now open_ elapsed c = if elapsed then claim_probe now c else (false, c)
admit_having_read now half_open elapsed c =
    if probe_exists c now then (false, c) else set_probe now c

-- The same with nothing between the commands.
unfoldable pub admit : Config → ℕ → Circuit → Bool × Circuit
unfolding admit_having_read
admit cfg now c = admit_having_read now (state_or_closed c.state) (cooldown_elapsed cfg now c) c

-- What `call` returns or raises; CircuitOpenError has the code CIRCUIT_OPEN.
pub data CallReply : Type 0 where
  result : String → CallReply
  rail_failed : String → CallReply
  circuit_open : CallReply

-- The part after `fn`, at the second at which it returns.
unfoldable pub report : Config → ℕ → RailReply → Circuit → CallReply × Circuit
unfolding record_success record_failure
report cfg later (accepted reference) c = (result reference, record_success c)
report cfg later (rail_error code) c = (rail_failed code, record_failure cfg later c)

abbrev run_admitted : Config → ℕ → RailReply → Bool × Circuit → CallReply × Circuit
run_admitted cfg later reply (true, c) = report cfg later reply c
run_admitted cfg later reply (false, c) = (circuit_open, c)

-- `call`, with nothing else between its steps: `reply` is what `fn` would do.
unfoldable pub call : Config → ℕ → ℕ → RailReply → Circuit → CallReply × Circuit
unfolding admit report
call cfg now later reply c = run_admitted cfg later reply (admit cfg now c)

-- `get_status`
pub record Status : Type 0 where
  pub state : CircuitState
  pub failure_count : ℕ
  pub last_failure_at : Option ℕ

unfoldable pub get_status : Circuit → Status
get_status c = record {
  state = state_or_closed c.state;
  failure_count = c.failure_count;
  last_failure_at = c.last_failure_at;
}
