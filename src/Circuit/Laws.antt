-- ===== src/Circuit/Laws.antt =====
-- The circuit breaker's promises for one call: fail fast while open, one probe at a time, and a
-- pre-flight check that agrees with the call.
use miniwallet.Base.{ℕ, ◌+◌, ◌<◌, ◌≤◌, ◌≡◌, ◌≢◌, true, false, none, some, List, [], ◌∷◌, arith}
use miniwallet.Rail.{RailReply}
use miniwallet.Circuit.{
  closed, open_, half_open, Circuit, Config, probe_ttl_seconds, state_or_closed, cooldown_elapsed,
  is_call_allowed, admit, CallReply, circuit_open, call,
}

-- While the circuit is open and the cooldown has not passed, a call fails with CircuitOpenError
-- whatever the rail would answer, the keys stay as they are, and the pre-flight check says no.
pub call_open :
    (cfg : Config) (now later last : ℕ) (reply : RailReply) (c : Circuit)
    → c.state ≡ some open_
    → c.last_failure_at ≡ some last
    → now < last + cfg.cooldown_seconds
    → (call cfg now later reply c ≡ (circuit_open, c)) × (is_call_allowed cfg now c ≡ false)
unfolding call is_call_allowed cooldown_elapsed
call_open cfg now later last reply c s l h = ground arith

-- A call: when it begins, when the rail has answered, and what the rail would answer.
abbrev pub Attempt : Type 0
Attempt = ℕ × ℕ × RailReply

-- Calls one after another: what each of them gives, and the keys after all.
abbrev pub run_calls : Config → List Attempt → Circuit → List CallReply × Circuit
run_calls cfg [] c = ([], c)
run_calls cfg ((now, later, reply) ∷ l) c =
    let (r, c₁) = call cfg now later reply c in let (rs, c₂) = run_calls cfg l c₁ in (r ∷ rs, c₂)

abbrev pub BeginsBefore : ℕ → Attempt → Type 0
BeginsBefore end a = a.0 < end

-- A probe whose caller never reports stops blocking: after sixty seconds the next call is admitted.
pub probe_expires :
    (cfg : Config) (now then' : ℕ) (c : Circuit)
    → state_or_closed c.state ≢ closed
    → (admit cfg now c).0 ≡ true
    → now + probe_ttl_seconds ≤ then'
    → (admit cfg then' (admit cfg now c).1).0 ≡ true
unfolding admit
probe_expires cfg now then' c s a h = ground arith

-- No probe is in flight unless the circuit is half open.
pub record IsCoherent (c : Circuit) : Type 0 where
  pub no_stray_probe : c.probe_active ≢ none → state_or_closed c.state ≡ half_open

-- Calls one after another keep that no probe is in flight unless the circuit is half open.
pub call-IsCoherent :
    (cfg : Config) (now later : ℕ) (reply : RailReply) (c : Circuit)
    → IsCoherent c
    → IsCoherent (call cfg now later reply c).1
unfolding call
call-IsCoherent cfg now later reply c h = ground arith

-- Where no probe is in flight unless the circuit is half open, the pre-flight check says exactly
-- whether a call at the same second is admitted.
pub preflight_exact :
    (cfg : Config) (now : ℕ) (c : Circuit)
    → IsCoherent c
    → is_call_allowed cfg now c ≡ (admit cfg now c).0
unfolding is_call_allowed admit
preflight_exact cfg now c h = ground arith
