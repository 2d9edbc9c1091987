-- ===== src/Breaker/Waiting.antt =====
-- What a refused caller is told, and what the two clock readings of `check` can do.
use linkex.Shared.{
  ℕ, ◌+◌, ◌-◌, ◌*◌, ◌≤◌, ◌<◌, ◌≡◌, refl, ap, ◌↔◌, inl, inr, some, List, [], ◌∷◌, arith, nat_eq,
  string_eq,
}
use linkex.Error.{AppError, round_seconds, number_seconds, retry_detail, retry_after_seconds}
use linkex.Json.{lookup}
use linkex.Breaker.Probe.{checks, check-steps}
use linkex.Breaker.{
  Inner, closed, opened, half_open, CircuitBreaker, granted, refused, panicked, rounded, paused,
  check_inner, check,
}

-- The header of a refusal holds the wait in whole seconds, rounded.
paused-retry : (wait : ℕ) → retry_after_seconds (paused (rounded wait)) ≡ some (round_seconds wait)
unfolding retry_after_seconds retry_detail lookup number_seconds round_seconds
paused-retry wait = ap some (omega arith)

round_seconds_bound : (n : ℕ) → n ≤ round_seconds n * 1_000_000_000 + 500_000_000
unfolding round_seconds
round_seconds_bound n = omega arith

-- Checks of an open breaker of which none is let through leave it open.
unprobed :
    (times : List (ℕ × ℕ)) (b : CircuitBreaker) (t : ℕ)
    → b.inner ≡ opened t
    → (checks times b).1 ≡ 0
    → (checks times b).0 ≡ b
unfolding checks
unprobed [] b t h none_through = refl
unprobed ((now, later) ∷ times) b t h none_through = elim (check-steps now later b (λ n e. cc)) [
  | inl (g, e) ↦ absurd (omega (arith, rw g at none_through))
  | inr (g, e) ↦ rw e (unprobed times b t h (ground (arith, rw (g, e) at none_through)))
]

come_back :
    (b : CircuitBreaker) (t now later again once_more r : ℕ) (e : AppError)
    → b.inner ≡ opened t
    → t ≤ now
    → now ≤ later
    → (check now later b).1 ≡ refused e
    → retry_after_seconds e ≡ some r
    → later + r * 1_000_000_000 + 500_000_000 ≤ again
    → (check again once_more b).1 ≡ granted
unfolding check check_inner
come_back b t now later again once_more r e h k l refusal told wait =
    ground (
      arith,
      paused-retry (b.cooldown - (later - t)),
      round_seconds_bound (b.cooldown - (later - t)),
    )

-- A caller that is refused while the breaker is open, and comes back after the number of seconds
-- that the answer's `Retry-After` names and half a second more, is let through, whoever else asks
-- in between, unless one of those is let through before: the rounding loses no more than that half
-- second.
pub retry_after_enough :
    (b : CircuitBreaker) (t now later again once_more r : ℕ) (e : AppError) (others : List (ℕ × ℕ))
    → b.inner ≡ opened t
    → t ≤ now
    → now ≤ later
    → (check now later b).1 ≡ refused e
    → retry_after_seconds e ≡ some r
    → later + r * 1_000_000_000 + 500_000_000 ≤ again
    → (checks others (check now later b).0).1 ≡ 0
    → (check again once_more (checks others (check now later b).0).0).1 ≡ granted
retry_after_enough b t now later again once_more r e others h k l refusal told wait quiet =
    rw (stays, unprobed others b t h (rw stays at quiet))
      (come_back b t now later again once_more r e h k l refusal told wait)
  where
    stays : (check now later b).0 ≡ b
    stays = elim (check-steps now later b (λ n e. cc)) [ inl (g, f) ↦ cc | inr (g, f) ↦ f ]

check_inner-panicked_iff :
    (cooldown now later : ℕ) (i : Inner)
    → ((check_inner cooldown i now later).1 ≡ panicked)
      ↔ ((t : ℕ) × (i ≡ opened t) × (now - t < cooldown) × (cooldown < later - t))
unfolding check_inner
check_inner-panicked_iff cooldown now later (closed n) = (λ h. cc, λ h. cc (h.1))
check_inner-panicked_iff cooldown now later (opened t) =
    (λ h. (t, refl, ground arith, ground arith), λ (u, e, p, q). ground arith)
check_inner-panicked_iff cooldown now later half_open = (λ h. cc, λ h. cc (h.1))

-- `check` panics exactly when the breaker is open, its cooldown has not passed at the first
-- reading of the clock, and has passed by more at the second.
pub check-panicked_iff :
    (b : CircuitBreaker) (now later : ℕ)
    → ((check now later b).1 ≡ panicked)
      ↔ ((t : ℕ) × (b.inner ≡ opened t) × (now - t < b.cooldown) × (b.cooldown < later - t))
unfolding check check_inner
check-panicked_iff b now later = check_inner-panicked_iff b.cooldown now later b.inner
