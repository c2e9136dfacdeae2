-- ===== src/Rail.antt =====
-- rail/simulator.py: the bank rail. What `random` and `uuid4` draw for a call is an argument.
use Prim.Native.Char.{code}
use miniwallet.Base.{
  ℕ, zero, suc, String, Bool, Option, none, some, List, [], ◌∷◌, ◌++◌, str_eq, ◌==◌, ◌<>◌,
  if◌then◌else◌,
}

-- A RailResult with its reference, or a RailError with its code.
pub data RailReply : Type 0 where
  accepted : String → RailReply
  rail_error : String → RailReply

pub data RailState : Type 0 where
  completed failed processing : RailState

pub record RailStatus : Type 0 where
  pub state : RailState
  pub reason : Option String

-- The queue `_forced_next`; `failure_rate` enters by what `random` draws.
pub record Rail : Type 0 where
  pub forced_next : List String

-- `random.random() < failure_rate`, `random.choice(_DEFAULT_FAILURE_CODES)` as an index, and
-- `uuid4().hex[:8]`.
pub record Draw : Type 0 where
  pub fails : Bool
  pub choice : ℕ
  pub reference : String

abbrev default_failure_code : ℕ → String
default_failure_code zero = "INVALID_ACCOUNT"
default_failure_code (suc zero) = "BENEFICIARY_CLOSED"
default_failure_code (suc (suc zero)) = "TIMEOUT"
default_failure_code _ = "NETWORK_ERROR"

-- `s.split(":", 1)[1]` where the text has a colon
after_colon : String → Option String
after_colon String.[] = none
after_colon (String.◌∷◌ c s) = let rest = after_colon s in if code c == b':' then some s else rest

abbrev or_network_error : Option String → String
or_network_error none = "NETWORK_ERROR"
or_network_error (some code) = code

forced_reply : Draw → String → RailReply
unfolding after_colon
forced_reply d forced =
    if str_eq forced "success"
    then accepted ("RAIL-" <> d.reference)
    else rail_error (or_network_error (after_colon forced))

send_next : Draw → List String → RailReply × Rail
unfolding forced_reply
send_next d (forced ∷ rest) = (forced_reply d forced, record { forced_next = rest })
send_next d [] = (
  if d.fails then rail_error (default_failure_code d.choice) else accepted ("RAIL-" <> d.reference),
  record { forced_next = [] },
)

-- `send_withdrawal`
unfoldable pub send_withdrawal : Draw → Rail → RailReply × Rail
unfolding send_next
send_withdrawal d rail = send_next d rail.forced_next

-- `query_status`
unfoldable pub query_status : String → RailStatus
query_status reference = record { state = RailState.completed; reason = none }

-- `force_next_outcome`
unfoldable pub force_next_outcome : String → Rail → Rail
force_next_outcome outcome rail = record { forced_next = rail.forced_next ++ outcome ∷ [] }
