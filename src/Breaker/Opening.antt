-- ===== src/Breaker/Opening.antt =====
-- When the circuit breaker opens.
use linkex.Shared.{ℕ, ◌+◌, ◌<◌, ◌≡◌, ap, List, [], ◌∷◌, ◌++◌, arith, length}
use linkex.Breaker.{closed, opened, CircuitBreaker, record_failure}

-- Failures at the given times, with no success between them.
unfoldable pub record_failures : List ℕ → CircuitBreaker → CircuitBreaker
record_failures [] b = b
record_failures (t ∷ ts) b = record_failures ts (record_failure t b)

failures-opened :
    (ts : List ℕ) (t : ℕ) (b : CircuitBreaker)
    → b.inner ≡ opened t
    → (record_failures ts b).inner ≡ opened t
unfolding record_failures record_failure
failures-opened [] t b h = h
failures-opened (u ∷ ts) t b h = failures-opened ts t (record_failure u b) (rw h)

failures_from :
    (ts more : List ℕ) (t n : ℕ) (b : CircuitBreaker)
    → b.inner ≡ closed n
    → n + length ts + 1 ≡ b.threshold
    → (record_failures (ts ++ t ∷ more) b).inner ≡ opened t
unfolding record_failures record_failure
failures_from [] more t n b h k = failures-opened more t (record_failure t b) (rw h (ground arith))
failures_from (u ∷ ts) more t n b h k =
    failures_from ts more t (n + 1) (record_failure u b) (rw h (ground arith)) (omega arith)

-- Counted from a success, the failure that reaches the threshold opens the breaker, and the
-- failures after it do not move the time of its opening.
pub failures_open :
    (ts more : List ℕ) (t : ℕ) (b : CircuitBreaker)
    → b.inner ≡ closed 0
    → length ts + 1 ≡ b.threshold
    → (record_failures (ts ++ t ∷ more) b).inner ≡ opened t
failures_open ts more t b h k = failures_from ts more t 0 b h (omega arith)

closed_from :
    (ts : List ℕ) (n : ℕ) (b : CircuitBreaker)
    → b.inner ≡ closed n
    → n + length ts < b.threshold
    → (record_failures ts b).inner ≡ closed (n + length ts)
unfolding record_failures record_failure
closed_from [] n b h k = rw h (ground arith)
closed_from (u ∷ ts) n b h k =
    rw (closed_from ts (n + 1) (record_failure u b) (rw h (ground arith)) (omega arith))
      (ap closed (omega arith))

-- Counted from a success, fewer failures than the threshold leave the breaker closed, and it has
-- counted each of them.
pub failures-closed :
    (ts : List ℕ) (b : CircuitBreaker)
    → b.inner ≡ closed 0
    → length ts < b.threshold
    → (record_failures ts b).inner ≡ closed (length ts)
failures-closed ts b h k = rw (closed_from ts 0 b h (omega arith)) (ap closed (omega arith))
