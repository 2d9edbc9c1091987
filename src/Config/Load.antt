-- ===== src/Config/Load.antt =====
-- src/config.rs: the upstream client, the cache and the whole of `from_env`, and what the settings say.
use linkex.Shared.{
  ℕ, String, Bool, true, false, not, ◌&&◌, ◌||◌, Option, none, some, List, [], ◌∷◌, is_some,
  is_empty, if◌then◌else◌,
}
use linkex.Shared.Int.{pos}
use linkex.Config.Values.{
  Checked, ok, invalid, ◌>>=?◌, Float, finite, Readers, Variables, blank_to_none, parse_u64,
  parse_f64, parse_bool, validate_proxy_url, Environment, production,
}
use linkex.Config.{
  UpstreamSettings, CacheSettings, Settings, is_nonnegative, duration, read, string_or,
  parse_bounded, service_from_env, api_from_env, identity_from_env,
}

abbrev pub billionths : ℕ → Float
billionths n = finite (pos n)

-- the names and the values of the loop over the numbers
abbrev pub first_bad : List (String × Float) → Checked Unit
first_bad [] = ok tt
first_bad ((name, value) ∷ rest) =
    if is_nonnegative value
    then first_bad rest
    else invalid name "must be a finite, nonnegative number"

abbrev pub numbers_of : UpstreamSettings → List (String × Float)
numbers_of u =
    ("RETRY_BACKOFF_SECONDS", u.retry_backoff_seconds)
    ∷ ("UPSTREAM_MIN_INTERVAL_SECONDS", u.upstream_min_interval_seconds)
    ∷ ("UPSTREAM_JITTER_SECONDS", u.upstream_jitter_seconds)
    ∷ ("CIRCUIT_BREAKER_COOLDOWN_SECONDS", u.circuit_breaker_cooldown_seconds)
    ∷ []

module _ (readers : Readers) (vars : Variables) where
  unfoldable pub parse_timeout : String → Checked Float
  parse_timeout value = parse_f64 readers "REQUEST_TIMEOUT_SECONDS" value >>=? duration

  abbrev pub proxy_of : Option String → Checked (Option String)
  proxy_of none = ok none
  proxy_of (some value) = validate_proxy_url readers value >>=? λ proxy. ok (some proxy)

  -- a number of seconds, by the name of its variable
  unfoldable pub seconds_or : ℕ → String → Checked Float
  seconds_or default name = read readers vars name (billionths default) (parse_f64 readers name)

  unfoldable pub upstream_from_env : Checked UpstreamSettings
  upstream_from_env =
      read readers vars "REQUEST_TIMEOUT_SECONDS" (billionths 20_000_000_000) parse_timeout
      >>=? λ timeout.
          read readers vars "MAX_RETRIES" 3
            (parse_bounded readers vars 0 10 "must not exceed 10" "MAX_RETRIES")
          >>=? λ retries. seconds_or 1_500_000_000 "RETRY_BACKOFF_SECONDS" >>=? λ backoff.
              seconds_or 1_200_000_000 "UPSTREAM_MIN_INTERVAL_SECONDS" >>=? λ interval.
              seconds_or 600_000_000 "UPSTREAM_JITTER_SECONDS" >>=? λ jitter.
              read readers vars "UPSTREAM_MAX_CONCURRENCY" 4 (
                parse_bounded readers vars 1 64 "must be between 1 and 64"
                  "UPSTREAM_MAX_CONCURRENCY")
              >>=? λ concurrency.
                  read readers vars "CIRCUIT_BREAKER_THRESHOLD" 4 (
                    parse_bounded readers vars 1 100 "must be between 1 and 100"
                      "CIRCUIT_BREAKER_THRESHOLD")
                  >>=? λ threshold.
                      seconds_or 90_000_000_000 "CIRCUIT_BREAKER_COOLDOWN_SECONDS" >>=? λ cooldown.
                      proxy_of (blank_to_none vars "PROXY_URL") >>=? λ proxy. ok (record {
                        user_agent =
                            string_or readers vars "USER_AGENT"
                              "Mozilla/5.0 (Windows NT 10.0; Win64; x64) AppleWebKit/537.36 (KHTML, like Gecko) Chrome/126.0.0.0 Safari/537.36";
                        accept_language = string_or readers vars "ACCEPT_LANGUAGE" "en-US,en;q=0.9";
                        voyager_client_version =
                            string_or readers vars "VOYAGER_CLIENT_VERSION" "1.13.30626";
                        request_timeout = timeout;
                        max_retries = retries;
                        retry_backoff_seconds = backoff;
                        upstream_min_interval_seconds = interval;
                        upstream_jitter_seconds = jitter;
                        upstream_max_concurrency = concurrency;
                        circuit_breaker_threshold = threshold;
                        circuit_breaker_cooldown_seconds = cooldown;
                        proxy_url = proxy;
                      })

  unfoldable pub cache_from_env : Checked CacheSettings
  cache_from_env =
      read readers vars "CACHE_TTL_SECONDS" 86400 (parse_u64 "CACHE_TTL_SECONDS") >>=? λ ttl.
      read readers vars "CACHE_MAX_ENTRIES" 512
        (parse_bounded readers vars 1 1000000 "must be between 1 and 1000000" "CACHE_MAX_ENTRIES")
      >>=? λ entries.
          read readers vars "CACHE_PERSIST" true (parse_bool readers "CACHE_PERSIST")
          >>=? λ persist. ok (record {
            cache_ttl_seconds = ttl;
            cache_max_entries = entries;
            cache_dir = string_or readers vars "CACHE_DIR" ".cache/profiles";
            cache_persist = persist;
          })

  unfoldable pub from_env : Checked Settings
  from_env = service_from_env readers vars >>=? λ service. api_from_env readers vars >>=? λ api.
      identity_from_env readers vars >>=? λ identity. upstream_from_env >>=? λ upstream.
      cache_from_env >>=? λ cache. first_bad (numbers_of upstream) >>=? λ _. ok (record {
        service = service;
        api = api;
        identity = identity;
        upstream = upstream;
        cache = cache;
      })

unfoldable pub auth_required : Settings → Bool
auth_required s = s.api.billing_enabled || not (is_empty s.api.api_keys)

unfoldable pub has_cookie_credentials : Settings → Bool
has_cookie_credentials s = is_some s.identity.li_at || is_some s.identity.cookie_header

unfoldable pub has_password_credentials : Settings → Bool
has_password_credentials s =
    s.identity.allow_password_login && is_some s.identity.email && is_some s.identity.password

abbrev same_as_production : Environment → Bool
same_as_production production = true
same_as_production _ = false

unfoldable pub is_production : Settings → Bool
is_production s = same_as_production s.service.environment
