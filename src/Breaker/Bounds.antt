-- ===== src/Breaker/Bounds.antt =====
-- The invariant of the circuit breaker, over every sequence of calls.
use linkex.Shared.{ℕ, ◌≤◌, ◌<◌, List, [], ◌∷◌, arith}
use linkex.Shared.Int.{ℤ}
use linkex.Breaker.{
  Inner, closed, opened, half_open, CircuitBreaker, check_inner, check as check_call,
  record_success, fail_inner, record_failure, new,
}

-- A call on the breaker, with the clock readings that it makes.
pub data Call : Type 0 where
  check : ℕ → ℕ → Call
  success : Call
  failure : ℕ → Call

unfoldable pub run : List Call → CircuitBreaker → CircuitBreaker
run [] b = b
run (check now later ∷ calls) b = run calls (check_call now later b).0
run (success ∷ calls) b = run calls (record_success b)
run (failure now ∷ calls) b = run calls (record_failure now b)

abbrev pub BelowThreshold : ℕ → Inner → Type 0
BelowThreshold threshold (closed failures) = failures < threshold
BelowThreshold threshold _ = Unit

-- A closed breaker has counted fewer failures than its threshold, which is at least one.
pub record IsValid (b : CircuitBreaker) : Type 0 where
  pub positive : 1 ≤ b.threshold
  pub below : BelowThreshold b.threshold b.inner

check_inner-below :
    (threshold cooldown now later : ℕ) (i : Inner)
    → BelowThreshold threshold i
    → BelowThreshold threshold (check_inner cooldown i now later).0
unfolding check_inner
check_inner-below threshold cooldown now later (closed f) h = h
check_inner-below threshold cooldown now later (opened t) h = ground arith
check_inner-below threshold cooldown now later half_open h = tt

fail_inner-below :
    (threshold now : ℕ) (i : Inner)
    → BelowThreshold threshold i
    → BelowThreshold threshold (fail_inner threshold now i)
unfolding fail_inner
fail_inner-below threshold now (closed f) h = ground arith
fail_inner-below threshold now (opened t) h = tt
fail_inner-below threshold now half_open h = tt

check-IsValid :
    (now later : ℕ) (b : CircuitBreaker) → IsValid b → IsValid (check_call now later b).0
unfolding check_call
check-IsValid now later b v = record {
  positive = v.positive;
  below = check_inner-below b.threshold b.cooldown now later b.inner v.below;
}

failure-IsValid : (now : ℕ) (b : CircuitBreaker) → IsValid b → IsValid (record_failure now b)
unfolding record_failure
failure-IsValid now b v = record {
  positive = v.positive;
  below = fail_inner-below b.threshold now b.inner v.below;
}

success-IsValid : (b : CircuitBreaker) → IsValid b → IsValid (record_success b)
unfolding record_success
success-IsValid b v = record { positive = v.positive; below = v.positive }

-- From a breaker in order, any sequence of checks, successes and failures, at any times, leads to
-- a breaker in order: the threshold is at least one, and a closed breaker counts fewer failures
-- than the threshold.
pub run-IsValid : (calls : List Call) (b : CircuitBreaker) → IsValid b → IsValid (run calls b)
unfolding run
run-IsValid [] b v = v
run-IsValid (check now later ∷ calls) b v = run-IsValid calls _ (check-IsValid now later b v)
run-IsValid (success ∷ calls) b v = run-IsValid calls _ (success-IsValid b v)
run-IsValid (failure now ∷ calls) b v = run-IsValid calls _ (failure-IsValid now b v)

pub new-IsValid : (threshold : ℕ) (cooldown : ℤ) → IsValid (new threshold cooldown)
unfolding new
new-IsValid threshold cooldown = omega arith
