-- ===== src/Throttle/Spacing.antt =====
-- How far apart the calls start, and how long one waits.
use linkex.Shared.{ℕ, ◌+◌, ◌-◌, ◌*◌, ◌≤◌, max, List, [], ◌∷◌, arith, nat_eq, string_eq, length}
use Prim.{Unit}
use linkex.Throttle.{RequestThrottle, acquire}

-- Callers in the order in which they take the lock, each with its reading of the clock and its
-- jitter: the times at which they start.
unfoldable pub starts : List (ℕ × ℕ) → RequestThrottle → List ℕ
starts [] t = []
starts ((now, drawn) ∷ callers) t =
    let (t', wait) = acquire now drawn t in (now + wait) ∷ starts callers t'

unfoldable pub after : List (ℕ × ℕ) → RequestThrottle → RequestThrottle
after [] t = t
after ((now, drawn) ∷ callers) t = after callers (acquire now drawn t).0

-- The first is not before the bound, and each is at least the interval after the one before it.
abbrev pub Spaced : ℕ → ℕ → List ℕ → Type 0
Spaced interval bound [] = Unit
Spaced interval bound (x ∷ xs) = (bound ≤ x) × Spaced interval (x + interval) xs

Spaced-weaken :
    (interval bound bound' : ℕ) (xs : List ℕ)
    → bound' ≤ bound
    → Spaced interval bound xs
    → Spaced interval bound' xs
Spaced-weaken interval bound bound' [] h s = record {}
Spaced-weaken interval bound bound' (x ∷ xs) h (le, s) = (omega arith, s)

-- Whatever the callers read from their clocks, in whatever order, and whatever jitter they draw:
-- one after the other they start at least the minimum interval apart.
pub starts-Spaced :
    (callers : List (ℕ × ℕ)) (t : RequestThrottle)
    → Spaced t.min_interval t.next_allowed_at (starts callers t)
unfolding starts acquire
starts-Spaced [] t = record {}
starts-Spaced ((now, drawn) ∷ callers) t = (
  omega arith,
  Spaced-weaken t.min_interval (max t.next_allowed_at now + (t.min_interval + drawn))
      (now + (t.next_allowed_at - now) + t.min_interval) (starts callers (acquire now drawn t).0)
      (omega arith) (starts-Spaced callers (acquire now drawn t).0),
)

-- No caller comes after the given time or draws more than the jitter.
abbrev pub Arrive : ℕ → ℕ → List (ℕ × ℕ) → Type 0
Arrive time jitter [] = Unit
Arrive time jitter ((now, drawn) ∷ callers) =
    (now ≤ time) × (drawn ≤ jitter) × Arrive time jitter callers

after-bound :
    (callers : List (ℕ × ℕ)) (t : RequestThrottle) (time : ℕ)
    → Arrive time t.jitter callers
    → (after callers t).next_allowed_at
      ≤ max t.next_allowed_at time + length callers * (t.min_interval + t.jitter)
unfolding after acquire
after-bound [] t time h = omega arith
after-bound ((now, drawn) ∷ callers) t time (le, d, h) =
    let rest = after-bound callers (acquire now drawn t).0 time h in omega (arith, rest)

-- A caller that comes after others at a time that is not before theirs, when a call was free to
-- start at that time before they came, waits at most the interval and the jitter for each of them.
pub wait-bound :
    (callers : List (ℕ × ℕ)) (t : RequestThrottle) (now drawn : ℕ)
    → t.next_allowed_at ≤ now
    → Arrive now t.jitter callers
    → (acquire now drawn (after callers t)).1 ≤ length callers * (t.min_interval + t.jitter)
unfolding acquire
wait-bound callers t now drawn free h = omega (arith, after-bound callers t now h)
