-- ===== src/RateLimit/Window.antt =====
-- The promise of the rate limiter: no window of its length holds more admitted requests of an
-- identity than the limit, whatever the other identities do.
use linkex.Shared.{
  ℕ, ◌≤◌, max, String, inl, inr, Option, none, some, List, [], ◌∷◌, arith, leb, nat_eq, string_eq,
  Bool-cases, length, get,
}
use linkex.RateLimit.{expire, hits_of, window_of, check}
use linkex.Error.{AppError}
use linkex.RateLimit.Check.{check-denied, check-admitted}
use linkex.RateLimit.Hits.{count}
use linkex.RateLimit.Buckets.{
  Request, Run, count_of, Keeps, Keeps-denied, Keeps-admitted, Keeps-evict_stale,
}

abbrev noted : Request → Option AppError → List Request → List Request
noted q none log = q ∷ log
noted q (some _) log = log

module _ (limit window_seconds : ℕ) where
  unfoldable pub step : Request → Run → Run
  step (identity, now) (identities, log) =
      let (identities', refusal) = check identity limit window_seconds now identities in
      (identities', noted (identity, now) refusal log)

  unfoldable pub run : List Request → Run → Run
  run [] r = r
  run (q ∷ requests) r = run requests (step q r)

-- The clock does not run backwards.
abbrev pub Ordered : ℕ → List Request → Type 0
Ordered last [] = Unit
Ordered last ((_, now) ∷ requests) = (last ≤ now) × Ordered now requests

module _ (limit window_seconds : ℕ) (j : String) where
  Keeps-step :
      (last now : ℕ) (k : String) (r : Run)
      → last ≤ now
      → Keeps (max limit 1) (window_of window_seconds) j last r
      → Keeps (max limit 1) (window_of window_seconds) j now (step limit window_seconds (k, now) r)
  unfolding step
  Keeps-step last now k (ids, log) h a =
      let w = window_of window_seconds in
      elim (Bool-cases (leb (max limit 1) (length (expire now w (hits_of k ids))))) [
        | inl e ↦
            rw (check-denied k limit window_seconds now ids e)
              (Keeps-denied (max limit 1) w j last now k ids log h a)
        | inr e ↦ rw (check-admitted k limit window_seconds now ids e) (
            Keeps-evict_stale (max limit 1) w j now _ _
              (Keeps-admitted (max limit 1) w j last now k ids log h a (ground arith)))
      ]

  Keeps-run :
      (requests : List Request) (last : ℕ) (r : Run)
      → Ordered last requests
      → Keeps (max limit 1) (window_of window_seconds) j last r
      → (end : ℕ) × Keeps
          (max limit 1)
          (window_of window_seconds)
          j
          end
          (run limit window_seconds requests r)
  unfolding run
  Keeps-run [] last r o a = (last, a)
  Keeps-run ((k, now) ∷ requests) last r (h, o) a =
      Keeps-run requests now (step limit window_seconds (k, now) r) o (Keeps-step last now k r h a)

  -- From an empty limiter and on a clock that does not run backwards, whatever requests come and
  -- from whomever, no interval as long as the window holds more admitted requests of an identity
  -- than the limit (and both are taken to be at least one).
  pub run-within_limit :
      (requests : List Request) (start lo : ℕ)
      → Ordered start requests
      → count_of j lo (window_of window_seconds) (run limit window_seconds requests ([], [])).1
        ≤ max limit 1
  unfolding get count_of count
  run-within_limit requests start lo o =
      (Keeps-run requests start ([], []) o empty).1.bucket.bound lo
    where
      empty : Keeps (max limit 1) (window_of window_seconds) j start ([], [])
      empty = record {
        distinct = tt;
        bucket = record {
          ascending = tt;
          passed = tt;
          recent = λ i h. omega arith;
          bound = λ i. omega arith;
        };
      }
