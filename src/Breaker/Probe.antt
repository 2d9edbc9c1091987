-- ===== src/Breaker/Probe.antt =====
-- Who may call upstream while the circuit breaker is not closed.
use linkex.Shared.{
  ℕ, ◌+◌, ◌-◌, ◌≤◌, ◌<◌, ◌≡◌, ◌≢◌, ◌⊎◌, inl, inr, refl, sym, ap, List, [], ◌∷◌, ◌++◌, map, arith,
  All,
}
use linkex.Breaker.{
  Inner, closed, opened, half_open, CircuitBreaker, Checked, granted, refused, paused, rounded,
  check_inner, check,
}

abbrev is_granted : Checked → ℕ
is_granted granted = 1
is_granted _ = 0

-- Checks by any callers, each with its two readings of the clock: the breaker after them, and how
-- many were let through.
unfoldable pub checks : List (ℕ × ℕ) → CircuitBreaker → CircuitBreaker × ℕ
checks [] b = (b, 0)
checks ((now, later) ∷ times) b =
    let (b', result) = check now later b in
    let (b'', n) = checks times b' in (b'', is_granted result + n)

-- While a probe is out, every check is refused, whatever the clock reads and however many there
-- are, and the breaker stays as it is: only a recorded success or failure ends the probe.
pub checks-half_open :
    (times : List (ℕ × ℕ)) (b : CircuitBreaker)
    → b.inner ≡ half_open
    → ((checks times b).1 ≡ 0) × ((checks times b).0 ≡ b)
unfolding checks check check_inner
checks-half_open [] b h = (refl, refl)
checks-half_open ((now, later) ∷ times) b h = ground (arith, checks-half_open times b h)

-- Outside `closed`, a check lets a caller through only by turning the breaker half-open.
check_inner-steps :
    (b : CircuitBreaker) (now later : ℕ) (i : Inner)
    → ((n : ℕ) → i ≢ closed n)
    → b.inner ≡ i
    → (((check_inner b.cooldown i now later).1 ≡ granted)
        × ((check_inner b.cooldown i now later).0 ≡ half_open))
      ⊎ ((is_granted (check_inner b.cooldown i now later).1 ≡ 0)
          × (record b { inner = (check_inner b.cooldown i now later).0 } ≡ b))
unfolding check_inner
check_inner-steps b now later (closed n) h e = absurd (h n refl)
check_inner-steps b now later (opened t) h e = ground arith
check_inner-steps b now later half_open h e = ground arith

pub check-steps :
    (now later : ℕ) (b : CircuitBreaker)
    → ((n : ℕ) → b.inner ≢ closed n)
    → (((check now later b).1 ≡ granted) × ((check now later b).0.inner ≡ half_open))
      ⊎ ((is_granted (check now later b).1 ≡ 0) × ((check now later b).0 ≡ b))
unfolding check
check-steps now later b h = check_inner-steps b now later b.inner h refl

-- From a breaker that is not closed, at most one check is let through before a result is recorded.
pub checks-single_probe :
    (times : List (ℕ × ℕ)) (b : CircuitBreaker)
    → ((n : ℕ) → b.inner ≢ closed n)
    → (checks times b).1 ≤ 1
unfolding checks
checks-single_probe [] b h = omega arith
checks-single_probe ((now, later) ∷ times) b h = elim (check-steps now later b h) [
  | inl (g, e) ↦ rw (g, (checks-half_open times (check now later b).0 e).0) (omega arith)
  | inr (g, e) ↦ rw (g, e) (omega (arith, checks-single_probe times b h))
]

-- The outcomes of checks by any callers, one after the other, and the breaker after them.
unfoldable pub outcomes : List (ℕ × ℕ) → CircuitBreaker → List Checked × CircuitBreaker
outcomes [] b = ([], b)
outcomes ((now, later) ∷ times) b =
    let (b', result) = check now later b in
    let (results, b'') = outcomes times b' in (result ∷ results, b'')

-- Both readings of the clock fall within the cooldown of a breaker that opened at `t`.
abbrev pub IsEarly : CircuitBreaker → ℕ → ℕ × ℕ → Type 0
IsEarly b t (now, later) = (now < t + b.cooldown) × (later ≤ t + b.cooldown)

-- What a caller is told that comes too early, and one that comes while another caller probes.
abbrev pub told_early : CircuitBreaker → ℕ → ℕ × ℕ → Checked
told_early b t (now, later) = refused (paused (rounded (b.cooldown - (later - t))))

abbrev pub told_probing : CircuitBreaker → ℕ × ℕ → Checked
told_probing b _ = refused (paused b.cooldown)

outcomes-probing :
    (times : List (ℕ × ℕ)) (b : CircuitBreaker)
    → b.inner ≡ half_open
    → outcomes times b ≡ (map (told_probing b) times, b)
unfolding outcomes check check_inner
outcomes-probing [] b h = refl
outcomes-probing ((now, later) ∷ times) b h =
    let same : record b { inner = half_open } ≡ b = ap (λ i. record b { inner = i }) (sym h) in
    rw (h, same, outcomes-probing times b h)

check_inner-early :
    (cooldown t now later : ℕ)
    → 1 ≤ cooldown
    → now < t + cooldown
    → later ≤ t + cooldown
    → check_inner cooldown (opened t) now later
      ≡ (opened t, refused (paused (rounded (cooldown - (later - t)))))
unfolding check_inner
check_inner-early cooldown t now later some p q = ground arith

check_inner-ripe :
    (cooldown t now later : ℕ)
    → t + cooldown ≤ now
    → check_inner cooldown (opened t) now later ≡ (half_open, granted)
unfolding check_inner
check_inner-ripe cooldown t now later p = ground arith

check-early :
    (b : CircuitBreaker) (t now later : ℕ)
    → 1 ≤ b.cooldown
    → b.inner ≡ opened t
    → IsEarly b t (now, later)
    → check now later b ≡ (b, told_early b t (now, later))
unfolding check
check-early b t now later some h (p, q) =
    let same : record b { inner = opened t } ≡ b = ap (λ i. record b { inner = i }) (sym h) in
    rw (h, check_inner-early b.cooldown t now later some p q, same)

check-ripe :
    (b : CircuitBreaker) (t now later : ℕ)
    → b.inner ≡ opened t
    → t + b.cooldown ≤ now
    → check now later b ≡ (record b { inner = half_open }, granted)
unfolding check
check-ripe b t now later h p = rw (h, check_inner-ripe b.cooldown t now later p)

-- After the breaker opened, each caller that comes within the cooldown is refused with what is left
-- of it, the first that comes later is let through, and whoever comes after that one, at whatever
-- time, is refused with the whole cooldown: the breaker is then half-open until a result is
-- recorded.
pub outcomes-one_probe :
    (early after : List (ℕ × ℕ)) (b : CircuitBreaker) (t now later : ℕ)
    → b.inner ≡ opened t
    → 1 ≤ b.cooldown
    → All (IsEarly b t) early
    → t + b.cooldown ≤ now
    → outcomes (early ++ (now, later) ∷ after) b ≡ (
      map (told_early b t) early ++ granted ∷ map (told_probing b) after,
      record b { inner = half_open },
    )
unfolding outcomes
outcomes-one_probe [] after b t now later h some a p =
    rw (check-ripe b t now later h p, outcomes-probing after (record b { inner = half_open }) refl)
outcomes-one_probe ((n, l) ∷ early) after b t now later h some (e, a) p =
    rw (check-early b t n l some h e, outcomes-one_probe early after b t now later h some a p)
