-- ===== src/Config/Examples.antt =====
-- The unit tests of src/config.rs, and the settings of concrete environments.
use linkex.Shared.{
  ℕ, String, ◌≡◌, refl, Bool, true, false, Option, none, some, List, [], ◌∷◌, ◌==◌, string_eq,
  if◌then◌else◌, get, arith,
}
use linkex.Shared.Int.{pos, negsuc}
use linkex.Parser.Samples.{ascii}
use linkex.Config.{Settings, parse_port}
use linkex.Config.Values.{
  Checked, ok, invalid, panics, Float, finite, infinite, nan, Readers, Variables, split_csv,
  parse_bool, parse_u64, parse_i64, parse_environment, production, development, console,
  validate_proxy_url,
}
use linkex.Config.Load.{from_env, auth_required, parse_timeout}
use linkex.Config.Bounds.{IsSafe, from_env-IsSafe}

-- what the crate url and the standard library make of some texts
abbrev readers : Readers
readers = record {
  scheme =
      λ s. if s == "ftp://x.y" then some "ftp" else if s == "not a url" then none else some "http";
  parse_f64 = λ s.
      if s == "-1"
      then some (finite (negsuc 999999999))
      else if s == "nan"
      then some nan
      else some (finite (pos 1_500_000_000));
  lower = ascii.to_lowercase;
  upper = ascii.to_uppercase;
}

csv_spaced : split_csv " a, b ,,c" ≡ "a" ∷ "b" ∷ "c" ∷ []
unfolding split_csv linkex.Shared.Text.split linkex.Shared.Text.trim
csv_spaced = refl

csv_blank : split_csv " , " ≡ []
unfolding split_csv linkex.Shared.Text.split linkex.Shared.Text.trim
csv_blank = refl

bool_true : parse_bool readers "X" "TRUE" ≡ ok true
unfolding parse_bool linkex.Shared.Text.trim linkex.Shared.Text.char_or
bool_true = refl

bool_nonsense : parse_bool readers "X" "nonsense" ≡ invalid "X" "'nonsense' is not a boolean"
unfolding parse_bool linkex.Shared.Text.trim
bool_nonsense = refl

number_plain : parse_u64 "X" "42" ≡ ok 42
unfolding parse_u64 linkex.Config.Values.unsigned linkex.Config.Values.digits_up_to
    linkex.Shared.Text.strip_prefix linkex.Shared.Text.all_chars linkex.Parser.Texts.read_digits
number_plain = refl

number_signed : parse_u64 "X" "+42" ≡ ok 42
unfolding parse_u64 linkex.Config.Values.unsigned linkex.Config.Values.digits_up_to
    linkex.Shared.Text.strip_prefix linkex.Shared.Text.all_chars linkex.Parser.Texts.read_digits
number_signed = refl

number_negative : parse_u64 "X" "-1" ≡ invalid "X" "'-1' is not a number"
unfolding parse_u64 linkex.Config.Values.unsigned linkex.Config.Values.digits_up_to
    linkex.Shared.Text.strip_prefix linkex.Shared.Text.all_chars
number_negative = refl

number_beyond :
    parse_u64 "X" "18446744073709551616" ≡ invalid "X" "'18446744073709551616' is not a number"
unfolding parse_u64 linkex.Config.Values.unsigned linkex.Config.Values.digits_up_to
    linkex.Shared.Text.strip_prefix linkex.Shared.Text.all_chars linkex.Parser.Texts.read_digits
number_beyond = refl

environment_upper : parse_environment readers "PRODUCTION" ≡ ok production
unfolding parse_environment linkex.Shared.Text.char_or
environment_upper = refl

proxy_ftp : validate_proxy_url readers "ftp://x.y" ≡ invalid "PROXY_URL" "unsupported scheme 'ftp'"
unfolding validate_proxy_url
proxy_ftp = refl

-- The message has the text of the variable, credentials and all.
proxy_quoted :
    validate_proxy_url readers "not a url"
    ≡ invalid "PROXY_URL" "'not a url' is not a parseable URL"
unfolding validate_proxy_url
proxy_quoted = refl

-- A negative timeout ends in a panic, not in an error.
timeout_negative : parse_timeout readers (λ name. none) "-1" ≡ panics
unfolding parse_timeout linkex.Config.Values.parse_f64
timeout_negative = refl

abbrev some_variables : Variables
some_variables name =
    get name (
      ("PORT", "9000")
      ∷ ("API_KEYS", "k1, k2")
      ∷ ("LOG_LEVEL", "warn")
      ∷ ("MAX_RETRIES", "10")
      ∷ [])

abbrev the_settings : Settings
the_settings = record {
  service = record {
    app_name = "LinkedIn Profile API";
    app_version = "0.1.0";
    environment = development;
    log_level = "WARN";
    log_format = console;
    host = "0.0.0.0";
    port = 9000;
    root_path = "";
  };
  api = record {
    api_keys = "k1" ∷ "k2" ∷ [];
    billing_enabled = false;
    redis_url = "redis://127.0.0.1:6379/";
    api_key_seed_path = "config/api_keys.json";
    cache_hit_cost_cents = pos 25;
    cache_miss_cost_cents = pos 50;
    cors_origins = "*" ∷ [];
    rate_limit_requests = 30;
    rate_limit_window_seconds = 60;
    expose_raw_endpoint = false;
    max_request_body_bytes = 16384;
    trusted_proxies = [];
  };
  identity = record {
    li_at = none;
    jsessionid = none;
    extra_cookies = [];
    email = none;
    password = none;
    cookie_header = none;
    allow_password_login = false;
    profile_query_id = none;
    session_state_path = ".cache/linkedin_session.json";
  };
  upstream = record {
    user_agent =
        "Mozilla/5.0 (Windows NT 10.0; Win64; x64) AppleWebKit/537.36 (KHTML, like Gecko) Chrome/126.0.0.0 Safari/537.36";
    accept_language = "en-US,en;q=0.9";
    voyager_client_version = "1.13.30626";
    request_timeout = finite (pos 20_000_000_000);
    max_retries = 10;
    retry_backoff_seconds = finite (pos 1_500_000_000);
    upstream_min_interval_seconds = finite (pos 1_200_000_000);
    upstream_jitter_seconds = finite (pos 600_000_000);
    upstream_max_concurrency = 4;
    circuit_breaker_threshold = 4;
    circuit_breaker_cooldown_seconds = finite (pos 90_000_000_000);
    proxy_url = none;
  };
  cache = record {
    cache_ttl_seconds = 86400;
    cache_max_entries = 512;
    cache_dir = ".cache/profiles";
    cache_persist = true;
  };
}

settings_read : from_env readers some_variables ≡ ok the_settings
unfolding from_env linkex.Config.service_from_env linkex.Config.read
    linkex.Config.Values.nonempty_var get linkex.Shared.Text.trim linkex.Config.parse_log_level
    linkex.Shared.Text.char_or parse_port linkex.Config.Values.unsigned
    linkex.Config.Values.digits_up_to linkex.Shared.Text.strip_prefix linkex.Shared.Text.all_chars
    linkex.Parser.Texts.read_digits linkex.Config.api_from_env linkex.Config.costs_from_env
    linkex.Config.identity_from_env linkex.Config.Load.cache_from_env linkex.Config.Load.seconds_or
    linkex.Config.Load.upstream_from_env linkex.Config.Values.blank_to_none
    linkex.Config.Values.parse_csv split_csv linkex.Config.Values.parse_usize
    linkex.Config.parse_bounded linkex.Shared.Text.is_whitespace linkex.Shared.Text.split
    linkex.Shared.Text.strip_if linkex.Shared.Text.trim_end linkex.Shared.Text.trim_start
settings_read = refl

from_env-IsSafe_example : IsSafe readers some_variables the_settings
from_env-IsSafe_example = from_env-IsSafe readers some_variables the_settings settings_read
