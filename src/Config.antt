-- ===== src/Config.antt =====
-- src/config.rs: `Settings::from_env`, section by section, as a function of the variables.
pub mod Values
pub mod Load
pub mod Reading
pub mod Bounds
mod Examples
use linkex.Shared.{
  ℕ, ◌+◌, ◌*◌, String, Bool, true, false, not, ◌&&◌, ◌||◌, Option, none, some, List, [], ◌∷◌, ◌==◌,
  string_eq, nat_eq, ltb, leb, contains, map, is_some, is_empty, if◌then◌else◌,
}
use linkex.Shared.Int.{ℤ, pos, ltb_ℤ, leb_ℤ}
use linkex.Shared.Options.{filter_map, map_option, unwrap_or}
use linkex.Config.Values.{
  Checked, ok, invalid, panics, ◌>>=?◌, Float, finite, infinite, nan, Readers, Variables,
  nonempty_var, blank_to_none, split_csv, parse_csv, quoted, unsigned, parse_i64, parse_u64,
  parse_usize, parse_f64, parse_bool, validate_proxy_url, Environment, development, production,
  parse_environment, LogFormat, console, parse_log_format,
}

abbrev pub log_levels : List String
log_levels = "TRACE" ∷ "DEBUG" ∷ "INFO" ∷ "WARN" ∷ "ERROR" ∷ []

abbrev extra_cookie_env_map : List (String × String)
extra_cookie_env_map =
    ("LINKEDIN_BCOOKIE", "bcookie")
    ∷ ("LINKEDIN_B_SCOOKIE", "bscookie")
    ∷ ("LINKEDIN_LIAP", "liap")
    ∷ ("LINKEDIN_LIDC", "lidc")
    ∷ []

-- The fields of `Settings`, in its sections.
pub record ServiceSettings : Type 0 where
  pub app_name : String
  pub app_version : String
  pub environment : Environment
  pub log_level : String
  pub log_format : LogFormat
  pub host : String
  pub port : ℕ
  pub root_path : String

pub record ApiSettings : Type 0 where
  pub api_keys : List String
  pub billing_enabled : Bool
  pub redis_url : String
  pub api_key_seed_path : String
  pub cache_hit_cost_cents : ℤ
  pub cache_miss_cost_cents : ℤ
  pub cors_origins : List String
  pub rate_limit_requests : ℕ
  pub rate_limit_window_seconds : ℕ
  pub expose_raw_endpoint : Bool
  pub max_request_body_bytes : ℕ
  pub trusted_proxies : List String

pub record IdentitySettings : Type 0 where
  pub li_at : Option String
  pub jsessionid : Option String
  pub extra_cookies : List (String × String)
  pub email : Option String
  pub password : Option String
  pub cookie_header : Option String
  pub allow_password_login : Bool
  pub profile_query_id : Option String
  pub session_state_path : String

pub record UpstreamSettings : Type 0 where
  pub user_agent : String
  pub accept_language : String
  pub voyager_client_version : String
  pub request_timeout : Float
  pub max_retries : ℕ
  pub retry_backoff_seconds : Float
  pub upstream_min_interval_seconds : Float
  pub upstream_jitter_seconds : Float
  pub upstream_max_concurrency : ℕ
  pub circuit_breaker_threshold : ℕ
  pub circuit_breaker_cooldown_seconds : Float
  pub proxy_url : Option String

pub record CacheSettings : Type 0 where
  pub cache_ttl_seconds : ℕ
  pub cache_max_entries : ℕ
  pub cache_dir : String
  pub cache_persist : Bool

pub record Settings : Type 0 where
  pub service : ServiceSettings
  pub api : ApiSettings
  pub identity : IdentitySettings
  pub upstream : UpstreamSettings
  pub cache : CacheSettings

-- a check after a value was read
abbrev pub checked : {A : Type 0} → Bool → String → String → A → Checked A
checked good name reason a = if good then ok a else invalid name reason

-- an `f64` that is finite and not negative
abbrev pub is_nonnegative : Float → Bool
is_nonnegative (finite n) = leb_ℤ (pos 0) n
is_nonnegative infinite = false
is_nonnegative nan = false

-- `Duration::from_secs_f64`, which panics where there is no such duration: below zero, and from
-- 2 ^ 64 seconds on.
abbrev pub duration : Float → Checked Float
duration (finite n) =
    if leb_ℤ (pos 0) n && ltb_ℤ n (pos (18446744073709551616 * 1_000_000_000))
    then ok (finite n)
    else panics
duration _ = panics

module _ (readers : Readers) (vars : Variables) where
  -- `if let Some(value) = nonempty_var(name) { … }`, where a field has a default
  abbrev pub read_as : {A : Type 0} → A → (String → Checked A) → Option String → Checked A
  read_as default parse none = ok default
  read_as default parse (some value) = parse value

  unfoldable pub read : {A : Type 0} → String → A → (String → Checked A) → Checked A
  read name default parse = read_as default parse (nonempty_var vars name)

  abbrev pub string_or : String → String → String
  string_or name default = unwrap_or default (nonempty_var vars name)

  abbrev pub in_range : ℕ → ℕ → ℕ → Bool
  in_range low high n = leb low n && leb n high

  unfoldable pub parse_log_level : String → Checked String
  parse_log_level value =
      checked (contains (readers.upper value) log_levels) "LOG_LEVEL"
        (quoted value "is not a known level") (readers.upper value)

  abbrev port_in : String → Option ℕ → Checked ℕ
  port_in value none = invalid "PORT" (quoted value "is not a valid port")
  port_in value (some port) = checked (not (port == 0)) "PORT" "port must be nonzero" port

  unfoldable pub parse_port : String → Checked ℕ
  parse_port value = port_in value (unsigned 65535 value)

  unfoldable pub parse_positive : String → String → Checked ℕ
  parse_positive name value =
      parse_u64 name value >>=? λ n. checked (not (n == 0)) name "must be at least 1" n

  unfoldable pub parse_bounded : ℕ → ℕ → String → String → String → Checked ℕ
  parse_bounded low high reason name value =
      parse_usize name value >>=? λ n. checked (in_range low high n) name reason n

  unfoldable pub service_from_env : Checked ServiceSettings
  service_from_env = read "ENVIRONMENT" development (parse_environment readers) >>=? λ environment.
      read "LOG_LEVEL" "INFO" parse_log_level >>=? λ log_level.
      read "LOG_FORMAT" console (parse_log_format readers) >>=? λ log_format.
      read "PORT" 8000 parse_port >>=? λ port. ok (record {
        app_name = string_or "APP_NAME" "LinkedIn Profile API";
        app_version = string_or "APP_VERSION" "0.1.0";
        environment = environment;
        log_level = log_level;
        log_format = log_format;
        host = string_or "HOST" "0.0.0.0";
        port = port;
        root_path = string_or "ROOT_PATH" "";
      })

  abbrev pub costs_ordered : ℤ → ℤ → Bool
  costs_ordered hit miss = not (ltb_ℤ hit (pos 0) || ltb_ℤ miss hit)

  unfoldable pub costs_from_env : Checked (ℤ × ℤ)
  costs_from_env =
      read "CACHE_HIT_COST_CENTS" (pos 25) (parse_i64 "CACHE_HIT_COST_CENTS") >>=? λ hit.
      read "CACHE_MISS_COST_CENTS" (pos 50) (parse_i64 "CACHE_MISS_COST_CENTS") >>=? λ miss.
      checked (costs_ordered hit miss) "CACHE_*_COST_CENTS"
        "costs must be nonnegative and miss cost must be at least hit cost" (hit, miss)

  unfoldable pub api_from_env : Checked ApiSettings
  api_from_env = read "BILLING_ENABLED" false (parse_bool readers "BILLING_ENABLED") >>=? λ billing.
      costs_from_env >>=? λ costs.
      read "RATE_LIMIT_REQUESTS" 30 (parse_positive "RATE_LIMIT_REQUESTS") >>=? λ requests.
      read "RATE_LIMIT_WINDOW_SECONDS" 60 (parse_positive "RATE_LIMIT_WINDOW_SECONDS")
      >>=? λ window.
          read "EXPOSE_RAW_ENDPOINT" false (parse_bool readers "EXPOSE_RAW_ENDPOINT") >>=? λ expose.
          read "MAX_REQUEST_BODY_BYTES" 16384
            (parse_bounded 1 1048576 "must be between 1 and 1048576" "MAX_REQUEST_BODY_BYTES")
          >>=? λ body. ok (record {
            api_keys = parse_csv vars "API_KEYS";
            billing_enabled = billing;
            redis_url = string_or "REDIS_URL" "redis://127.0.0.1:6379/";
            api_key_seed_path = string_or "API_KEY_SEED_PATH" "config/api_keys.json";
            cache_hit_cost_cents = costs.0;
            cache_miss_cost_cents = costs.1;
            cors_origins =
                unwrap_or ("*" ∷ []) (map_option split_csv (nonempty_var vars "CORS_ORIGINS"));
            rate_limit_requests = requests;
            rate_limit_window_seconds = window;
            expose_raw_endpoint = expose;
            max_request_body_bytes = body;
            trusted_proxies = parse_csv vars "TRUSTED_PROXIES";
          })

  abbrev extra_cookie : String × String → Option (String × String)
  extra_cookie (name, cookie) = map_option (λ value. (cookie, value)) (blank_to_none vars name)

  unfoldable pub identity_from_env : Checked IdentitySettings
  identity_from_env =
      read "ALLOW_PASSWORD_LOGIN" false (parse_bool readers "ALLOW_PASSWORD_LOGIN") >>=? λ allow.
      ok (record {
        li_at = blank_to_none vars "LINKEDIN_LI_AT";
        jsessionid = blank_to_none vars "LINKEDIN_JSESSIONID";
        extra_cookies = filter_map extra_cookie extra_cookie_env_map;
        email = blank_to_none vars "LINKEDIN_EMAIL";
        password = blank_to_none vars "LINKEDIN_PASSWORD";
        cookie_header = blank_to_none vars "LINKEDIN_COOKIE_HEADER";
        allow_password_login = allow;
        profile_query_id = blank_to_none vars "LINKEDIN_PROFILE_QUERY_ID";
        session_state_path = string_or "SESSION_STATE_PATH" ".cache/linkedin_session.json";
      })
