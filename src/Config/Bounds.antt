-- ===== src/Config/Bounds.antt =====
-- What settings that are accepted satisfy.
use mathlib.Core.Path.{subst}
use linkex.Shared.{
  ℕ, ◌≤◌, String, ◌≡◌, refl, true, false, inl, inr, List, [], ◌∷◌, contains, string_eq, nat_eq,
  arith, Bool-cases, All,
}
use linkex.Shared.Int.{ℤ, pos, ◌≤ℤ◌}
use linkex.Config.Values.{
  ok, Float, Readers, Variables, parse_u64, parse_environment, development, parse_log_format,
  console, parse_i64, parse_bool, blank_to_none,
}
use linkex.Config.{
  ServiceSettings, ApiSettings, UpstreamSettings, CacheSettings, Settings, is_nonnegative, read,
  log_levels, parse_log_level, parse_port, parse_positive, parse_bounded, costs_ordered,
  costs_from_env, service_from_env, api_from_env, identity_from_env,
}
use linkex.Config.Load.{
  billionths, parse_timeout, seconds_or, proxy_of, first_bad, numbers_of, upstream_from_env,
  cache_from_env, from_env,
}
use linkex.Config.Reading.{
  bind-ok, ok-inj, checked-ok, InRange, read-ok, parse_port-InRange, parse_log_level-known,
  bounded-InRange, positive-pos,
}

module _ (readers : Readers) (vars : Variables) where
  record IsService (s : ServiceSettings) : Type 0 where
    port : (1 ≤ s.port) × (s.port ≤ 65535)
    level : contains s.log_level log_levels ≡ true

  record IsApi (s : ApiSettings) : Type 0 where
    costs : costs_ordered readers vars s.cache_hit_cost_cents s.cache_miss_cost_cents ≡ true
    requests : 1 ≤ s.rate_limit_requests
    window : 1 ≤ s.rate_limit_window_seconds
    body : (1 ≤ s.max_request_body_bytes) × (s.max_request_body_bytes ≤ 1048576)

  record IsUpstream (s : UpstreamSettings) : Type 0 where
    retries : s.max_retries ≤ 10
    concurrency : (1 ≤ s.upstream_max_concurrency) × (s.upstream_max_concurrency ≤ 64)
    threshold : (1 ≤ s.circuit_breaker_threshold) × (s.circuit_breaker_threshold ≤ 100)

  service_from_env-IsService :
      (s : ServiceSettings) → service_from_env readers vars ≡ ok s → IsService s
  unfolding service_from_env
  service_from_env-IsService s h =
      let (environment, _, h1) =
        bind-ok (read readers vars "ENVIRONMENT" development (parse_environment readers)) _ s h in
      let (level, is_level, h2) =
        bind-ok (read readers vars "LOG_LEVEL" "INFO" (parse_log_level readers vars)) _ s h1 in
      let (format, _, h3) =
        bind-ok (read readers vars "LOG_FORMAT" console (parse_log_format readers)) _ s h2 in
      let (port, is_port, h4) =
        bind-ok (read readers vars "PORT" 8000 (parse_port readers vars)) _ s h3 in
      subst IsService (ok-inj _ s h4) (record {
        port =
            read-ok readers vars (InRange 1 65535) "PORT" 8000 (parse_port readers vars) port
              (omega arith, omega arith) (parse_port-InRange readers vars) is_port;
        level =
            read-ok readers vars (λ l. contains l log_levels ≡ true) "LOG_LEVEL" "INFO"
              (parse_log_level readers vars) level refl (parse_log_level-known readers vars)
              is_level;
      })

  costs-ordered :
      (costs : ℤ × ℤ)
      → costs_from_env readers vars ≡ ok costs
      → costs_ordered readers vars costs.0 costs.1 ≡ true
  unfolding costs_from_env
  costs-ordered costs h =
      let hit_name : String = "CACHE_HIT_COST_CENTS" in
      let miss_name : String = "CACHE_MISS_COST_CENTS" in
      let (hit, _, h1) =
        bind-ok (read readers vars hit_name (pos 25) (parse_i64 hit_name)) _ costs h in
      let (miss, _, h2) =
        bind-ok (read readers vars miss_name (pos 50) (parse_i64 miss_name)) _ costs h1 in
      let (good, same) =
        checked-ok (costs_ordered readers vars hit miss) _ _ (hit, miss) costs h2 in
      subst (λ c. costs_ordered readers vars c.0 c.1 ≡ true) same good

  api_from_env-IsApi : (s : ApiSettings) → api_from_env readers vars ≡ ok s → IsApi s
  unfolding api_from_env
  api_from_env-IsApi s h =
      let read_bool = λ (name : String). read readers vars name false (parse_bool readers name) in
      let read_positive = λ (name : String) (default : ℕ).
        read readers vars name default (parse_positive readers vars name) in
      let body_name : String = "MAX_REQUEST_BODY_BYTES" in
      let body_reason : String = "must be between 1 and 1048576" in
      let (billing, _, h1) = bind-ok (read_bool "BILLING_ENABLED") _ s h in
      let (costs, ordered, h2) = bind-ok (costs_from_env readers vars) _ s h1 in
      let (requests, some_requests, h3) = bind-ok (read_positive "RATE_LIMIT_REQUESTS" 30) _ s h2 in
      let (window, some_window, h4) =
        bind-ok (read_positive "RATE_LIMIT_WINDOW_SECONDS" 60) _ s h3 in
      let (expose, _, h5) = bind-ok (read_bool "EXPOSE_RAW_ENDPOINT") _ s h4 in
      let (body, some_body, h6) =
        bind-ok
          (read readers vars body_name 16384
            (parse_bounded readers vars 1 1048576 body_reason body_name))
          _ s h5 in
      subst IsApi (ok-inj _ s h6) (record {
        costs = costs-ordered costs ordered;
        requests =
            positive-pos readers vars 30 "RATE_LIMIT_REQUESTS" requests (omega arith) some_requests;
        window =
            positive-pos readers vars 60 "RATE_LIMIT_WINDOW_SECONDS" window (omega arith)
              some_window;
        body =
            bounded-InRange readers vars 1 1048576 16384 body_reason body_name body (omega arith)
              (omega arith) some_body;
      })

  upstream_from_env-IsUpstream :
      (s : UpstreamSettings) → upstream_from_env readers vars ≡ ok s → IsUpstream s
  unfolding upstream_from_env
  upstream_from_env-IsUpstream s h =
      let bounded = λ (low high default : ℕ) (reason name : String).
        read readers vars name default (parse_bounded readers vars low high reason name) in
      let (timeout, _, h1) =
        bind-ok
          (read readers vars "REQUEST_TIMEOUT_SECONDS" (billionths 20_000_000_000)
            (parse_timeout readers vars))
          _ s h in
      let (retries, a, h2) = bind-ok (bounded 0 10 3 "must not exceed 10" "MAX_RETRIES") _ s h1 in
      let (backoff, _, h3) =
        bind-ok (seconds_or readers vars 1_500_000_000 "RETRY_BACKOFF_SECONDS") _ s h2 in
      let (interval, _, h4) =
        bind-ok (seconds_or readers vars 1_200_000_000 "UPSTREAM_MIN_INTERVAL_SECONDS") _ s h3 in
      let (jitter, _, h5) =
        bind-ok (seconds_or readers vars 600_000_000 "UPSTREAM_JITTER_SECONDS") _ s h4 in
      let (concurrency, b, h6) =
        bind-ok (bounded 1 64 4 "must be between 1 and 64" "UPSTREAM_MAX_CONCURRENCY") _ s h5 in
      let (threshold, c, h7) =
        bind-ok (bounded 1 100 4 "must be between 1 and 100" "CIRCUIT_BREAKER_THRESHOLD") _ s h6 in
      let (cooldown, _, h8) =
        bind-ok (seconds_or readers vars 90_000_000_000 "CIRCUIT_BREAKER_COOLDOWN_SECONDS") _ s
          h7 in
      let (proxy, _, h9) =
        bind-ok (proxy_of readers vars (blank_to_none vars "PROXY_URL")) _ s h8 in
      subst IsUpstream (ok-inj _ s h9) (record {
        retries =
            (bounded-InRange readers vars 0 10 3 "must not exceed 10" "MAX_RETRIES" retries
              (omega arith) (omega arith) a).1;
        concurrency =
            bounded-InRange readers vars 1 64 4 "must be between 1 and 64"
              "UPSTREAM_MAX_CONCURRENCY" concurrency (omega arith) (omega arith) b;
        threshold =
            bounded-InRange readers vars 1 100 4 "must be between 1 and 100"
              "CIRCUIT_BREAKER_THRESHOLD" threshold (omega arith) (omega arith) c;
      })

  cache-bounded :
      (s : CacheSettings)
      → cache_from_env readers vars ≡ ok s
      → InRange 1 1000000 s.cache_max_entries
  unfolding cache_from_env
  cache-bounded s h =
      let reason : String = "must be between 1 and 1000000" in
      let (ttl, _, h1) =
        bind-ok (read readers vars "CACHE_TTL_SECONDS" 86400 (parse_u64 "CACHE_TTL_SECONDS")) _ s
          h in
      let (entries, a, h2) =
        bind-ok
          (read readers vars "CACHE_MAX_ENTRIES" 512
            (parse_bounded readers vars 1 1000000 reason "CACHE_MAX_ENTRIES"))
          _ s h1 in
      let (persist, _, h3) =
        bind-ok (read readers vars "CACHE_PERSIST" true (parse_bool readers "CACHE_PERSIST")) _ s
          h2 in
      subst (λ c. InRange 1 1000000 c.cache_max_entries) (ok-inj _ s h3)
        (bounded-InRange readers vars 1 1000000 512 reason "CACHE_MAX_ENTRIES" entries (omega arith)
          (omega arith) a)

first_bad-ok :
    (numbers : List (String × Float)) (u : Unit)
    → first_bad numbers ≡ ok u
    → All (λ n. is_nonnegative n.1 ≡ true) numbers
first_bad-ok [] u h = tt
first_bad-ok ((name, value) ∷ rest) u h = elim (Bool-cases (is_nonnegative value)) [
  | inl e ↦ (e, first_bad-ok rest u (rw e at h))
  | inr e ↦ cc (rw e at h)
]

in_order :
    (readers : Readers) (vars : Variables) (hit miss : ℤ)
    → costs_ordered readers vars hit miss ≡ true
    → (pos 0 ≤ℤ hit) × (hit ≤ℤ miss)
in_order readers vars hit miss h = ground arith

-- Settings that the program can start with: a port, a known log level, costs that are ordered and
-- not negative, limits and sizes within their bounds, and finite numbers of seconds.
pub record IsSafe (readers : Readers) (vars : Variables) (s : Settings) : Type 0 where
  pub port : (1 ≤ s.service.port) × (s.service.port ≤ 65535)
  pub level : contains s.service.log_level log_levels ≡ true
  pub costs :
      (pos 0 ≤ℤ s.api.cache_hit_cost_cents)
      × (s.api.cache_hit_cost_cents ≤ℤ s.api.cache_miss_cost_cents)
  pub requests : 1 ≤ s.api.rate_limit_requests
  pub window : 1 ≤ s.api.rate_limit_window_seconds
  pub body : (1 ≤ s.api.max_request_body_bytes) × (s.api.max_request_body_bytes ≤ 1048576)
  pub retries : s.upstream.max_retries ≤ 10
  pub concurrency :
      (1 ≤ s.upstream.upstream_max_concurrency) × (s.upstream.upstream_max_concurrency ≤ 64)
  pub threshold :
      (1 ≤ s.upstream.circuit_breaker_threshold) × (s.upstream.circuit_breaker_threshold ≤ 100)
  pub entries : (1 ≤ s.cache.cache_max_entries) × (s.cache.cache_max_entries ≤ 1000000)
  pub numbers : All (λ n. is_nonnegative n.1 ≡ true) (numbers_of s.upstream)

-- Whatever the environment holds, settings that are accepted are safe.
pub from_env-IsSafe :
    (readers : Readers) (vars : Variables) (s : Settings)
    → from_env readers vars ≡ ok s
    → IsSafe readers vars s
unfolding from_env
from_env-IsSafe readers vars s h =
    let (service, is_service, h1) = bind-ok (service_from_env readers vars) _ s h in
    let (api, is_api, h2) = bind-ok (api_from_env readers vars) _ s h1 in
    let (identity, _, h3) = bind-ok (identity_from_env readers vars) _ s h2 in
    let (upstream, is_upstream, h4) = bind-ok (upstream_from_env readers vars) _ s h3 in
    let (cache, is_cache, h5) = bind-ok (cache_from_env readers vars) _ s h4 in
    let (u, numbers, h6) = bind-ok (first_bad (numbers_of upstream)) _ s h5 in
    let a = service_from_env-IsService readers vars service is_service in
    let b = api_from_env-IsApi readers vars api is_api in
    let c = upstream_from_env-IsUpstream readers vars upstream is_upstream in
    subst (IsSafe readers vars) (ok-inj _ s h6) (record {
      port = a.port;
      level = a.level;
      costs = in_order readers vars api.cache_hit_cost_cents api.cache_miss_cost_cents b.costs;
      requests = b.requests;
      window = b.window;
      body = b.body;
      retries = c.retries;
      concurrency = c.concurrency;
      threshold = c.threshold;
      entries = cache-bounded readers vars cache is_cache;
      numbers = first_bad-ok (numbers_of upstream) u numbers;
    })
