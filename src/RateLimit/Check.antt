-- ===== src/RateLimit/Check.antt =====
-- What `check` of the rate limiter comes to, on both branches.
use linkex.Shared.{
  ℕ, max, String, ◌≡◌, true, false, none, some, [], ◌∷◌, ◌++◌, leb, nat_eq, string_eq, length,
  insert, get-insert,
}
use linkex.RateLimit.{
  Hits, Identities, expire, hits_of, evict_oldest, evict_stale, window_of, admit, check,
  retry_after,
}
use linkex.Error.{rate_limited}
use text.Mathlib.TextPositions.{eq_refl}

-- The identity is in the map when the eviction of the oldest bucket asks for it: that eviction
-- never happens.
pub evict_oldest-insert :
    (now : ℕ) (k : String) (hits : Hits) (ids : Identities)
    → evict_oldest now k (insert k hits ids) ≡ insert k hits ids
unfolding evict_oldest
evict_oldest-insert now k hits ids = rw (get-insert k k hits ids, eq_refl k)

module _ (limit window now : ℕ) (hits : Hits) where
  admit-denied :
      leb limit (length (expire now window hits)) ≡ true
      → admit limit window now hits
        ≡ (expire now window hits, some (retry_after now window (expire now window hits)))
  unfolding admit
  admit-denied e = rw e

  admit-admitted :
      leb limit (length (expire now window hits)) ≡ false
      → admit limit window now hits ≡ (expire now window hits ++ now ∷ [], none)
  unfolding admit
  admit-admitted e = rw e

module _ (k : String) (limit window_seconds now : ℕ) (ids : Identities) where
  abbrev left : Hits
  left = expire now (window_of window_seconds) (hits_of k ids)

  -- With as many hits in the window as the limit allows, the request is turned away, and only the
  -- hits that have left the window are dropped.
  pub check-denied :
      leb (max limit 1) (length left) ≡ true
      → check k limit window_seconds now ids ≡ (
        insert k left ids,
        some (
            rate_limited
              (retry_after now (window_of window_seconds) left)
              (max limit 1)
              window_seconds),
      )
  unfolding check
  check-denied e = rw (admit-denied (max limit 1) (window_of window_seconds) now (hits_of k ids) e)

  pub check-admitted :
      leb (max limit 1) (length left) ≡ false
      → check k limit window_seconds now ids
        ≡ (evict_stale now (window_of window_seconds) (insert k (left ++ now ∷ []) ids), none)
  unfolding check
  check-admitted e = rw (
    admit-admitted (max limit 1) (window_of window_seconds) now (hits_of k ids) e,
    evict_oldest-insert,
  )
