-- ===== src/Tests/Breaker.antt =====
-- The circuit breaker at concrete inputs.
use miniwallet.Base.{◌≡◌, refl, none, some, [], ◌∷◌, arith, List, ◌++◌}
use miniwallet.Rail.{accepted, rail_error}
use miniwallet.Circuit.{
  open_, Circuit, default_config, admit, call, is_call_allowed, cooldown_elapsed, closed,
  state_or_closed,
}
use miniwallet.Circuit.Laws.{Attempt, IsCoherent, preflight_exact}
use miniwallet.Circuit.Trips.{
  Failure, run_failures, threshold_failures_open, after_probe, probe_decides,
}

-- Opened at the second 100, with no probe.
abbrev tripped : Circuit
tripped = record {
  state = some open_;
  failure_count = 3;
  last_failure_at = some 100;
  probe_active = none;
}

abbrev fresh : Circuit
fresh = record { state = none; failure_count = 0; last_failure_at = none; probe_active = none }

abbrev two_calls : List Attempt
two_calls = (145, 146, accepted "r") ∷ (199, 200, rail_error "TIMEOUT") ∷ []

tripped-IsCoherent : IsCoherent tripped
tripped-IsCoherent = record { no_stray_probe = λ n. absurd (n refl) }

preflight_exact_example :
    is_call_allowed default_config 140 tripped ≡ (admit default_config 140 tripped).0
preflight_exact_example = preflight_exact default_config 140 tripped tripped-IsCoherent

abbrev two_failures : List Failure
two_failures = (1, 2, "TIMEOUT") ∷ (3, 4, "TIMEOUT") ∷ []

threshold_failures_open_example :
    (state_or_closed (run_failures default_config two_failures fresh).state ≡ closed)
    × ((run_failures default_config (two_failures ++ (5, 6, "TIMEOUT") ∷ []) fresh).state
        ≡ some open_)
threshold_failures_open_example =
    threshold_failures_open default_config two_failures ((5, 6, "TIMEOUT") ∷ []) 0 fresh
      (refl, refl, ground arith) (ground arith) refl

probe_decides_example :
    (call default_config 140 141 (accepted "r") tripped).1 ≡ after_probe 141 (accepted "r")
unfolding cooldown_elapsed
probe_decides_example =
    probe_decides default_config 140 141 (accepted "r") tripped tripped-IsCoherent refl refl
