-- ===== src/Breaker/Examples.antt =====
-- Runs of the circuit breaker, and its theorems at concrete breakers.
use linkex.Shared.{◌≡◌, refl, [], ◌∷◌, arith, nat_eq, string_eq}
use linkex.Error.{round_seconds, number_seconds, retry_detail, retry_after_seconds}
use linkex.Json.{lookup}
use linkex.Breaker.{
  closed, opened, half_open, CircuitBreaker, granted, refused, panicked, paused, check_inner, check,
  record_failure, BreakerState, state,
}
use linkex.Breaker.Bounds.{Call, run}
use linkex.Breaker.Opening.{record_failures, failures-closed}
use linkex.Breaker.Probe.{checks, outcomes, outcomes-one_probe}
use linkex.Breaker.Waiting.{retry_after_enough}

abbrev fresh : CircuitBreaker
fresh = record { threshold = 2; cooldown = 60_000_000_000; inner = closed 0 }

abbrev tripped : CircuitBreaker
tripped = record fresh { inner = opened 1_000_000_000 }

abbrev probing : CircuitBreaker
probing = record fresh { inner = half_open }

opens_then_probes :
    (run (Call.failure 5 ∷ Call.failure 9 ∷ []) fresh ≡ record fresh { inner = opened 9 })
    × ((check 2_000_000_000 2_000_000_000 tripped).1 ≡ refused (paused 59_000_000_000))
    × (check 61_000_000_000 61_000_000_000 tripped ≡ (probing, granted))
    × (record_failure 7 probing ≡ record fresh { inner = opened 7 })
    × (state 61_000_000_000 tripped ≡ BreakerState.half_open)
unfolding run check record_failure state round_seconds
opens_then_probes = (refl, refl, refl, refl, refl)

late_second_reading : (check 60_999_999_999 61_000_000_001 tripped).1 ≡ panicked
unfolding check
late_second_reading = refl

failures-closed_example : (record_failures (5 ∷ []) fresh).inner ≡ closed 1
failures-closed_example = failures-closed (5 ∷ []) fresh refl (omega arith)

outcomes-one_probe_example :
    outcomes
      ((2_000_000_000, 3_000_000_000)
        ∷ (61_000_000_000, 61_000_000_000)
        ∷ (61_000_000_001, 61_000_000_002)
        ∷ [])
      tripped
    ≡ (refused (paused 58_000_000_000) ∷ granted ∷ refused (paused 60_000_000_000) ∷ [], probing)
unfolding linkex.Error.round_seconds
outcomes-one_probe_example =
    outcomes-one_probe ((2_000_000_000, 3_000_000_000) ∷ []) ((61_000_000_001, 61_000_000_002) ∷ [])
      tripped 1_000_000_000 61_000_000_000 61_000_000_000 refl (omega arith)
      ((omega arith, omega arith), tt) (omega arith)

retry_after_enough_example :
    (check 61_500_000_000 61_500_000_000
      (checks
        ((5_000_000_000, 5_000_000_000) ∷ [])
        (check 2_000_000_000 2_000_000_000 tripped).0).0).1
    ≡ granted
unfolding check check_inner checks retry_after_seconds retry_detail lookup number_seconds
    round_seconds
retry_after_enough_example =
    retry_after_enough tripped 1_000_000_000 2_000_000_000 2_000_000_000 61_500_000_000
      61_500_000_000 59 (paused 59_000_000_000) ((5_000_000_000, 5_000_000_000) ∷ []) refl
      (omega arith) (omega arith) refl refl (omega arith) refl
