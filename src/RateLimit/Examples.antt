-- ===== src/RateLimit/Examples.antt =====
-- Runs of the rate limiter, and its theorems at concrete requests.
use linkex.Shared.{
  ℕ, ◌+◌, ◌*◌, ◌≤◌, max, ◌≡◌, refl, none, some, List, [], ◌∷◌, arith, nat_eq, string_eq, get,
  insert, remove, retain,
}
use linkex.RateLimit.{
  Identities, expire, back, oldest_key, evict_stale, evict_oldest, window_of, admit, check,
}
use linkex.RateLimit.Buckets.{Request, count_of}
use linkex.RateLimit.Window.{run, step, run-within_limit}
use linkex.RateLimit.Retry.{denied_then_admitted}
use linkex.Error.{rate_limited, retry_after_seconds, round_seconds}
use linkex.RateLimit.Growth.{visit}

program : Unit {0}
unfolding run step check admit expire get insert evict_stale evict_oldest count_of visit remove
    retain
program = tt

abbrev second : ℕ
second = 1_000_000_000

abbrev requests : List Request
requests =
    ("a", 1 * second)
    ∷ ("a", 2 * second)
    ∷ ("b", 3 * second)
    ∷ ("a", 4 * second)
    ∷ ("a", 12 * second)
    ∷ []

-- Two requests in ten seconds: the third of `a` is turned away, and the one after the window of the
-- first is admitted.
admitted_of_a :
    (run 2 10 requests ([], [])).1
    ≡ ("a", 12 * second) ∷ ("b", 3 * second) ∷ ("a", 2 * second) ∷ ("a", 1 * second) ∷ []
unfolding program
admitted_of_a = refl

oldest_of_two : oldest_key 9 (("a", 5 ∷ []) ∷ ("b", 2 ∷ 3 ∷ []) ∷ []) ≡ some "b"
unfolding oldest_key back
oldest_of_two = refl

run-within_limit_example :
    count_of "a" second (window_of 10) (run 2 10 requests ([], [])).1 ≤ max 2 1
run-within_limit_example = run-within_limit 2 10 "a" requests 0 second (omega arith)

abbrev full : Identities
full = ("a", second ∷ (2 * second) ∷ []) ∷ []

denied_then_admitted_example :
    (check "a" 2 10 (11 * second + 500_000_001) (check "a" 2 10 (4 * second) full).0).1 ≡ none
unfolding program retry_after_seconds round_seconds
denied_then_admitted_example =
    denied_then_admitted "a" 2 10 (4 * second) (11 * second + 500_000_001) 7
      (rate_limited (7 * second) 2 10) full (omega arith) (omega arith) refl refl (omega arith)
