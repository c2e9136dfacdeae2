-- ===== src/Circuit/Trips.antt =====
-- Which runs of calls open the circuit, and how a probe closes it again.
use miniwallet.Base.{
  ℕ, suc, ◌+◌, ◌<◌, ◌≡◌, refl, ◌++◌, true, none, some, String, List, [], ◌∷◌, length, arith,
}
use miniwallet.Rail.{RailReply, accepted, rail_error}
use miniwallet.Circuit.{closed, open_, Circuit, Config, state_or_closed, cooldown_elapsed, call}
use miniwallet.Circuit.Laws.{IsCoherent}

-- Calls that all end in a RailError, with the seconds at which each begins and ends.
abbrev pub Failure : Type 0
Failure = ℕ × ℕ × String

pub run_failures : Config → List Failure → Circuit → Circuit
run_failures cfg [] c = c
run_failures cfg ((now, later, code) ∷ l) c =
    run_failures cfg l (call cfg now later (rail_error code) c).1

-- A closed circuit that has counted some failures, too few to trip.
abbrev pub Counts : Config → ℕ → Circuit → Type 0
Counts cfg k c =
    (state_or_closed c.state ≡ closed) × (c.failure_count ≡ k) × (k < cfg.failure_threshold)

failure-Counts :
    (cfg : Config) (now later k : ℕ) (code : String) (c : Circuit)
    → Counts cfg k c
    → suc k < cfg.failure_threshold
    → Counts cfg (suc k) (call cfg now later (rail_error code) c).1
unfolding call
failure-Counts cfg now later k code c h lt = ground arith

failure_opens :
    (cfg : Config) (now later k : ℕ) (code : String) (c : Circuit)
    → Counts cfg k c
    → suc k ≡ cfg.failure_threshold
    → (call cfg now later (rail_error code) c).1.state ≡ some open_
unfolding call
failure_opens cfg now later k code c h eq = ground arith

-- From a closed circuit that has counted k failures, fewer failing calls in a row than are missing
-- to the threshold leave it closed, with each of them counted.
pub few_failures_stay_closed :
    (cfg : Config) (l : List Failure) (k : ℕ) (c : Circuit)
    → Counts cfg k c
    → k + length l < cfg.failure_threshold
    → Counts cfg (k + length l) (run_failures cfg l c)
unfolding run_failures
few_failures_stay_closed cfg [] k c h lt = ground arith
few_failures_stay_closed cfg ((now, later, code) ∷ l) k c h lt = ground (
  arith,
  failure-Counts cfg now later k code c h,
  few_failures_stay_closed cfg l (suc k) (call cfg now later (rail_error code) c).1,
)

reaching_opens :
    (cfg : Config) (l : List Failure) (k : ℕ) (c : Circuit)
    → Counts cfg k c
    → k + length l ≡ cfg.failure_threshold
    → (run_failures cfg l c).state ≡ some open_
unfolding run_failures
reaching_opens cfg [] k c h eq = absurd (omega arith)
reaching_opens cfg ((now, later, code) ∷ []) k c h eq =
    failure_opens cfg now later k code c h (omega arith)
reaching_opens cfg ((now, later, code) ∷ f ∷ l) k c h eq =
    reaching_opens cfg (f ∷ l) (suc k) (call cfg now later (rail_error code) c).1
      (failure-Counts cfg now later k code c h (omega arith)) (omega arith)

run_failures-append :
    (cfg : Config) (few more : List Failure) (c : Circuit)
    → run_failures cfg (few ++ more) c ≡ run_failures cfg more (run_failures cfg few c)
unfolding run_failures
run_failures-append cfg [] more c = refl
run_failures-append cfg ((now, later, code) ∷ few) more c =
    run_failures-append cfg few more (call cfg now later (rail_error code) c).1

-- From a closed circuit that has counted k failures, it takes exactly as many failing calls in a row
-- as are missing to the threshold to open it: after any fewer of them it is closed, and after all of
-- them it is open.
pub threshold_failures_open :
    (cfg : Config) (few more : List Failure) (k : ℕ) (c : Circuit)
    → Counts cfg k c
    → k + length few < cfg.failure_threshold
    → k + length few + length more ≡ cfg.failure_threshold
    → (state_or_closed (run_failures cfg few c).state ≡ closed)
      × ((run_failures cfg (few ++ more) c).state ≡ some open_)
threshold_failures_open cfg few more k c h lt eq =
    let counted = few_failures_stay_closed cfg few k c h lt in
    (
      counted.0,
      rw (run_failures-append cfg few more c)
          (reaching_opens cfg more (k + length few) (run_failures cfg few c) counted eq),
    )

-- The keys after a probe that ended at a given second.
abbrev pub after_probe : ℕ → RailReply → Circuit
after_probe later (accepted _) = record {
  state = some closed;
  failure_count = 0;
  last_failure_at = none;
  probe_active = none;
}
after_probe later (rail_error _) = record {
  state = some open_;
  failure_count = 1;
  last_failure_at = some later;
  probe_active = none;
}

-- In an open circuit with no probe in flight, after the cooldown, the next call is the probe, and its outcome decides: success closes the
-- circuit and forgets the failures, a RailError opens it anew from the second of the failure.
pub probe_decides :
    (cfg : Config) (now later : ℕ) (reply : RailReply) (c : Circuit)
    → IsCoherent c
    → c.state ≡ some open_
    → cooldown_elapsed cfg now c ≡ true
    → (call cfg now later reply c).1 ≡ after_probe later reply
unfolding call
probe_decides cfg now later reply c h s e = ground arith
