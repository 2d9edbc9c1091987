-- ===== src/Throttle/Examples.antt =====
-- The throttle at concrete callers.
use linkex.Shared.{◌≡◌, refl, [], ◌∷◌, nat_eq, string_eq}
use linkex.Throttle.{RequestThrottle, acquire}
use linkex.Throttle.Spacing.{starts, Spaced, starts-Spaced}

abbrev spaced_by_10 : RequestThrottle
spaced_by_10 = record { min_interval = 10; jitter = 4; next_allowed_at = 100 }

starts_example : starts ((100, 3) ∷ (101, 0) ∷ (90, 2) ∷ []) spaced_by_10 ≡ 100 ∷ 113 ∷ 123 ∷ []
unfolding starts acquire
starts_example = refl

starts-Spaced_example : Spaced 10 100 (starts ((100, 3) ∷ (101, 0) ∷ (90, 2) ∷ []) spaced_by_10)
starts-Spaced_example = starts-Spaced ((100, 3) ∷ (101, 0) ∷ (90, 2) ∷ []) spaced_by_10
