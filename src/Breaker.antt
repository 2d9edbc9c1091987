-- ===== src/Breaker.antt =====
-- src/linkedin/throttle.rs, `CircuitBreaker`: the three-state breaker of the upstream calls.
-- Times and durations are nanoseconds of the monotonic clock. An operation that reads the clock
-- takes the reading as an argument; one that reads it twice takes both.
pub mod Bounds
pub mod Opening
pub mod Probe
pub mod Waiting
mod Examples
use linkex.Shared.{
  ℕ, suc, ◌+◌, ◌-◌, ◌*◌, ◌≤◌, ◌<◌, String, Bool, true, false, Option, none, some, List, [], ◌∷◌,
  ltb, leb, if◌then◌else◌, max, ◌≡◌,
}
use linkex.Shared.Int.{ℤ, pos, pos_part}
use linkex.Json.{Value, Fields, integer, string, float, object, field, end}
use linkex.Error.{AppError, circuit_open, round_seconds}

pub data BreakerState : Type 0 where
  closed opened half_open : BreakerState

unfoldable pub as_str : BreakerState → String
as_str BreakerState.closed = "closed"
as_str BreakerState.opened = "open"
as_str BreakerState.half_open = "half-open"

-- `closed failures`, `opened opened_at`, and `half_open` while one caller probes.
pub data Inner : Type 0 where
  closed : ℕ → Inner
  opened : ℕ → Inner
  half_open : Inner

pub record CircuitBreaker : Type 0 where
  pub threshold : ℕ
  pub cooldown : ℕ
  pub inner : Inner

unfoldable pub new : ℕ → ℤ → CircuitBreaker
new threshold cooldown = record {
  threshold = max threshold 1;
  cooldown = pos_part cooldown;
  inner = closed 0;
}

-- `opened_at.elapsed()`, which is zero where the clock reads earlier.
abbrev pub elapsed : ℕ → ℕ → ℕ
elapsed opened_at now = now - opened_at

-- a number of seconds in JSON
abbrev pub retry_after_map : ℕ → Fields
retry_after_map seconds = field "retry_after_seconds" (float (pos seconds)) end

-- `as_secs_f64().round()`, still counted in nanoseconds
abbrev pub rounded : ℕ → ℕ
rounded n = round_seconds n * 1_000_000_000

abbrev pub paused : ℕ → AppError
paused retry_in =
    circuit_open "Upstream calls are paused after repeated LinkedIn failures."
      (retry_after_map retry_in)

-- What `check` comes to: it lets the caller go on, refuses it, or panics.
pub data Checked : Type 0 where
  granted : Checked
  refused : AppError → Checked
  panicked : Checked

-- `now` is the first reading of the clock and `later` the second, for the time that is left. The
-- subtraction of durations panics where it would go below zero.
check_inner : ℕ → Inner → ℕ → ℕ → Inner × Checked
check_inner cooldown (closed failures) now later = (closed failures, granted)
check_inner cooldown (opened opened_at) now later =
    if ltb (elapsed opened_at now) cooldown
    then (
      opened opened_at,
      if leb (elapsed opened_at later) cooldown
          then refused (paused (rounded (cooldown - elapsed opened_at later)))
          else panicked,
    )
    else (half_open, granted)
check_inner cooldown half_open now later = (half_open, refused (paused cooldown))

abbrev with_inner : CircuitBreaker → Inner × Checked → CircuitBreaker × Checked
with_inner b (i, r) = (record b { inner = i }, r)

unfoldable pub check : ℕ → ℕ → CircuitBreaker → CircuitBreaker × Checked
unfolding check_inner
check now later b = with_inner b (check_inner b.cooldown b.inner now later)

unfoldable pub record_success : CircuitBreaker → CircuitBreaker
record_success b = record b { inner = closed 0 }

fail_inner : ℕ → ℕ → Inner → Inner
fail_inner threshold now (closed failures) =
    if leb threshold (failures + 1) then opened now else closed (failures + 1)
fail_inner threshold now half_open = opened now
fail_inner threshold now (opened opened_at) = opened opened_at

unfoldable pub record_failure : ℕ → CircuitBreaker → CircuitBreaker
unfolding fail_inner
record_failure now b = record b { inner = fail_inner b.threshold now b.inner }

state_inner : ℕ → Inner → ℕ → BreakerState
state_inner cooldown (closed _) now = BreakerState.closed
state_inner cooldown (opened opened_at) now =
    if leb cooldown (elapsed opened_at now) then BreakerState.half_open else BreakerState.opened
state_inner cooldown half_open now = BreakerState.half_open

unfoldable pub state : ℕ → CircuitBreaker → BreakerState
unfolding state_inner
state now b = state_inner b.cooldown b.inner now

failures_inner : Inner → ℕ
failures_inner (closed failures) = failures
failures_inner (opened _) = 1
failures_inner half_open = 0

unfoldable pub snapshot : ℕ → CircuitBreaker → Value
unfolding state failures_inner as_str
snapshot now b = object (
    field "state" (string (as_str (state now b)))
      (field "consecutive_failures" (integer (pos (failures_inner b.inner))) end))
