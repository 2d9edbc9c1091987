-- ===== src/Throttle.antt =====
-- src/linkedin/throttle.rs, `RequestThrottle`: the spacing of the upstream calls. Times are
-- nanoseconds. The number of permits is tokio's semaphore's and is not modelled.
pub mod Spacing
mod Examples
use linkex.Shared.{ℕ, suc, ◌+◌, ◌-◌, ◌≤◌, max, arith, nat_eq, string_eq}
use linkex.Shared.Int.{
  ℤ, pos, negsuc, pos_part, neg_part, sub_ℕ, ◌+ℤ◌, ◌-ℤ◌, ◌≤ℤ◌, ltb_ℤ, leb_ℤ, int_eq, +ℤ_parts,
  -ℤ_parts, eq_of_parts, int_laws,
}

pub record RequestThrottle : Type 0 where
  pub min_interval : ℕ
  pub jitter : ℕ
  pub next_allowed_at : ℕ

unfoldable pub new : ℕ → ℤ → ℤ → RequestThrottle
new now min_interval jitter = record {
  min_interval = pos_part min_interval;
  jitter = pos_part jitter;
  next_allowed_at = now;
}

-- `acquire` at the time `now`, with the jitter that it drew: the new state, and what it sleeps.
unfoldable pub acquire : ℕ → ℕ → RequestThrottle → RequestThrottle × ℕ
acquire now drawn t = (
  record t { next_allowed_at = max t.next_allowed_at now + (t.min_interval + drawn) },
  t.next_allowed_at - now,
)
