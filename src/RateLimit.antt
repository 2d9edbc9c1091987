-- ===== src/RateLimit.antt =====
-- src/api/middleware.rs, `RateLimiter`: inbound rate limiting for each identity. Times are
-- nanoseconds of the monotonic clock. The map's order, which Rust leaves open, is that of the list;
-- only `oldest_key` depends on it.
pub mod Hits
pub mod Check
pub mod Buckets
pub mod Window
pub mod Retry
pub mod Growth
mod Examples
use linkex.Shared.{
  ℕ, ◌+◌, ◌-◌, ◌*◌, max, String, Bool, false, Option, none, some, List, [], ◌∷◌, ◌++◌, arith, ltb,
  leb, nat_eq, string_eq, if◌then◌else◌, length, get, insert, remove, contains_key, retain,
}
use linkex.Error.{AppError, rate_limited}

abbrev pub max_identities : ℕ
max_identities = 4096

-- The hits of an identity, oldest first.
abbrev pub Hits : Type 0
Hits = List ℕ

abbrev pub Identities : Type 0
Identities = List (String × Hits)

-- `now.duration_since(t)`, which is zero where `t` is later
abbrev pub age : ℕ → ℕ → ℕ
age now t = now - t

-- `while hits.front().is_some_and(|t| …) { hits.pop_front(); }`
unfoldable pub expire : ℕ → ℕ → Hits → Hits
expire now window [] = []
expire now window (t ∷ hits) =
    let rest = expire now window hits in if ltb window (age now t) then rest else t ∷ hits

abbrev pub front_or : ℕ → Hits → ℕ
front_or now [] = now
front_or now (t ∷ _) = t

unfoldable pub back : Hits → Option ℕ
back [] = none
back (t ∷ []) = some t
back (t ∷ u ∷ hits) = back (u ∷ hits)

-- `retry_after`: what is left of the window for the oldest hit, and the window if it has passed
abbrev pub retry_after : ℕ → ℕ → Hits → ℕ
retry_after now window hits =
    if leb (age now (front_or now hits)) window
    then window - age now (front_or now hits)
    else window

-- the test of `retain`
abbrev pub is_recent : ℕ → ℕ → Hits → Bool
is_recent now window hits = elim (back hits) [ none ↦ false | some t ↦ leb (age now t) window ]

-- `or_default`
abbrev pub hits_or : Option Hits → Hits
hits_or none = []
hits_or (some hits) = hits

abbrev pub hits_of : String → Identities → Hits
hits_of identity identities = hits_or (get identity identities)

abbrev back_or : ℕ → Hits → ℕ
back_or now hits = elim (back hits) [ none ↦ now | some t ↦ t ]

-- `min_by_key` over the entries, with the best so far
oldest_from : ℕ → String → ℕ → Identities → String
oldest_from now best at [] = best
oldest_from now best at ((k, hits) ∷ identities) =
    oldest_from now (if ltb (back_or now hits) at then k else best)
      (if ltb (back_or now hits) at then back_or now hits else at) identities

unfoldable pub oldest_key : ℕ → Identities → Option String
unfolding oldest_from
oldest_key now [] = none
oldest_key now ((k, hits) ∷ identities) = some (oldest_from now k (back_or now hits) identities)

-- The eviction of one bucket where the identity is not in the map.
unfoldable pub evict_oldest : ℕ → String → Identities → Identities
evict_oldest now identity identities =
    if contains_key identity identities
    then identities
    else elim (oldest_key now identities) [ none ↦ identities | some k ↦ remove k identities ]

-- The eviction of the stale buckets of a map that is too large.
unfoldable pub evict_stale : ℕ → ℕ → Identities → Identities
evict_stale now window identities =
    if ltb (max_identities * 2) (length identities)
    then retain (is_recent now window) identities
    else identities

abbrev pub window_of : ℕ → ℕ
window_of window_seconds = max window_seconds 1 * 1_000_000_000

-- What is left of `hits`, whether the request is admitted, and what it is told if not.
unfoldable pub admit : ℕ → ℕ → ℕ → Hits → Hits × Option ℕ
admit limit window now hits =
    if leb limit (length (expire now window hits))
    then (expire now window hits, some (retry_after now window (expire now window hits)))
    else (expire now window hits ++ now ∷ [], none)

answer : String → ℕ → ℕ → ℕ → Identities → Hits × Option ℕ → Identities × Option AppError
answer identity limit window_seconds now identities (hits, some wait) =
    (insert identity hits identities, some (rate_limited wait limit window_seconds))
answer identity limit window_seconds now identities (hits, none) = (
  evict_stale now (window_of window_seconds)
      (evict_oldest now identity (insert identity hits identities)),
  none,
)

unfoldable pub check : String → ℕ → ℕ → ℕ → Identities → Identities × Option AppError
unfolding answer
check identity limit window_seconds now identities =
    answer identity (max limit 1) window_seconds now identities
      (admit (max limit 1) (window_of window_seconds) now (hits_of identity identities))
