-- ===== src/RateLimit/Retry.antt =====
-- When a request that was turned away may come back.
use linkex.Shared.{
  ℕ, ◌+◌, ◌*◌, ◌≤◌, ◌<◌, max, String, ◌≡◌, sym, inl, inr, true, false, none, some, [], ◌∷◌, arith,
  leb, nat_eq, string_eq, leb→le, Bool-cases, length, All, insert, get-insert,
}
use text.Mathlib.TextPositions.{eq_refl}
use linkex.Error.{AppError, rate_limited, round_seconds, retry_after_seconds}
use linkex.RateLimit.{Hits, Identities, expire, retry_after, hits_of, window_of, check}
use linkex.RateLimit.Check.{check-denied, check-admitted}

length-expire-le : (now w : ℕ) (hits : Hits) → length (expire now w hits) ≤ length hits
unfolding expire
length-expire-le now w [] = omega arith
length-expire-le now w (t ∷ hits) = ground (arith, length-expire-le now w hits)

-- Past the wait, the hit that was the oldest has left the window.
expire_after_wait :
    (now later w : ℕ) (hits : Hits)
    → All (λ t. t ≤ now) hits
    → 1 ≤ length (expire now w hits)
    → now + retry_after now w (expire now w hits) < later
    → length (expire later w (expire now w hits)) < length (expire now w hits)
unfolding expire
expire_after_wait now later w [] h k l = absurd (omega arith)
expire_after_wait now later w (t ∷ hits) (p, h) k l =
    ground (arith, expire_after_wait now later w hits h, length-expire-le later w hits)

module _ (k : String) (limit window_seconds now later wait l s : ℕ) (ids : Identities)
    (past : All (λ t. t ≤ now) (hits_of k ids)) (bound : length (hits_of k ids) ≤ max limit 1)
    (denied : (check k limit window_seconds now ids).1 ≡ some (rate_limited wait l s))
    (waited : now + wait < later) where
  abbrev w : ℕ
  w = window_of window_seconds

  abbrev left : Hits
  left = expire now w (hits_of k ids)

  full : leb (max limit 1) (length left) ≡ true
  full = elim (Bool-cases (leb (max limit 1) (length left))) [
    | inl e ↦ e
    | inr e ↦ cc (rw (check-admitted k limit window_seconds now ids e) at denied)
  ]

  told : retry_after now w left ≡ wait
  told = cc (rw (check-denied k limit window_seconds now ids full) at denied)

  fewer : length (expire later w left) < length left
  fewer =
      expire_after_wait now later w (hits_of k ids) past
        (omega (arith, leb→le (max limit 1) (length left) full)) (omega (arith, told))

  room : leb (max limit 1) (length (expire later w left)) ≡ false
  room = ground (arith, fewer, length-expire-le now w (hits_of k ids))

  admitted_after_wait :
      (check k limit window_seconds later (check k limit window_seconds now ids).0).1 ≡ none
  admitted_after_wait =
      let same : hits_of k (insert k left ids) ≡ left = bucket in
      rw (check-denied k limit window_seconds now ids full)
        (rw (check-admitted k limit window_seconds later (insert k left ids) (rw same room)))
    where
      bucket : hits_of k (insert k left ids) ≡ left
      bucket = rw (get-insert k k left ids, eq_refl k)

round_seconds_bound : (n : ℕ) → n ≤ round_seconds n * 1_000_000_000 + 500_000_000
unfolding round_seconds
round_seconds_bound n = omega arith

-- An identity that is turned away, whose bucket holds no more hits than the limit and none from the
-- future, is admitted at the next request, where that comes after the seconds that the `Retry-After`
-- header names and more than half a second, which the rounding may lose.
pub denied_then_admitted :
    (k : String) (limit window_seconds now later r : ℕ) (e : AppError) (ids : Identities)
    → All (λ t. t ≤ now) (hits_of k ids)
    → length (hits_of k ids) ≤ max limit 1
    → (check k limit window_seconds now ids).1 ≡ some e
    → retry_after_seconds e ≡ some r
    → now + r * 1_000_000_000 + 500_000_000 < later
    → (check k limit window_seconds later (check k limit window_seconds now ids).0).1 ≡ none
unfolding retry_after_seconds
denied_then_admitted k limit window_seconds now later r e ids past bound denied told waited =
    elim (Bool-cases
      (leb (max limit 1) (length (expire now (window_of window_seconds) (hits_of k ids))))) [
        | inl full ↦
            let wait =
              retry_after now (window_of window_seconds)
                (expire now (window_of window_seconds) (hits_of k ids)) in
            let same : rate_limited wait (max limit 1) window_seconds ≡ e =
              cc (rw (check-denied k limit window_seconds now ids full) at denied) in
            let rounded : round_seconds wait ≡ r = cc (rw (sym same) at told) in
            admitted_after_wait k limit window_seconds now later wait (max limit 1) window_seconds
              ids past bound (rw (check-denied k limit window_seconds now ids full))
              (omega (arith, waited, rounded, round_seconds_bound wait))
        | inr room ↦ cc (rw (check-admitted k limit window_seconds now ids room) at denied)
      ]
