-- ===== src/Error.antt =====
-- src/error.rs and src/linkedin/error.rs: the error taxonomy, its HTTP mapping, and the upstream
-- errors. Durations are counted in nanoseconds; an `f64` number of seconds is such a count.
pub mod Upstream
pub mod Response
use linkex.Shared.{
  ℕ, ◌+◌, ◌/◌, String, Bool, true, false, Option, none, some, ◌||◌, ◌≡◌, refl, ◌&&◌, leb, ltb, ◌==◌,
  if◌then◌else◌,
}
use linkex.Shared.Int.{ℤ, pos, negsuc}
use linkex.Json.{Value, Fields, integer, float, lookup}

pub data AppError : Type 0 where
  validation : String → Option String → AppError
  invalid_profile_url : String → Fields → AppError
  api_key_missing : AppError
  api_key_invalid : AppError
  insufficient_credit : ℤ → ℤ → AppError
  billing_unavailable : AppError
  -- the wait in nanoseconds, the limit, the window in seconds
  rate_limited : ℕ → ℕ → ℕ → AppError
  auth_failed : String → Fields → AppError
  session_expired : String → Fields → AppError
  challenge_required : String → Fields → AppError
  profile_not_found : String → Fields → AppError
  profile_not_visible : String → Fields → AppError
  linkedin_rate_limited : String → Fields → AppError
  linkedin_unavailable : String → Fields → AppError
  circuit_open : String → Fields → AppError
  endpoint_disabled : AppError
  internal : String → AppError

unfoldable pub error_code : AppError → String
error_code (validation _ _) = "VALIDATION_ERROR"
error_code (invalid_profile_url _ _) = "INVALID_PROFILE_URL"
error_code api_key_missing = "API_KEY_MISSING"
error_code api_key_invalid = "API_KEY_INVALID"
error_code (insufficient_credit _ _) = "INSUFFICIENT_CREDIT"
error_code billing_unavailable = "BILLING_UNAVAILABLE"
error_code (rate_limited _ _ _) = "RATE_LIMITED"
error_code (auth_failed _ _) = "LINKEDIN_AUTH_FAILED"
error_code (session_expired _ _) = "LINKEDIN_SESSION_EXPIRED"
error_code (challenge_required _ _) = "LINKEDIN_CHALLENGE_REQUIRED"
error_code (profile_not_found _ _) = "PROFILE_NOT_FOUND"
error_code (profile_not_visible _ _) = "PROFILE_NOT_VISIBLE"
error_code (linkedin_rate_limited _ _) = "LINKEDIN_RATE_LIMITED"
error_code (linkedin_unavailable _ _) = "LINKEDIN_UNAVAILABLE"
error_code (circuit_open _ _) = "UPSTREAM_CIRCUIT_OPEN"
error_code endpoint_disabled = "ENDPOINT_DISABLED"
error_code (internal _) = "INTERNAL_ERROR"

unfoldable pub status_code : AppError → ℕ
status_code (validation _ _) = 422
status_code (invalid_profile_url _ _) = 422
status_code api_key_missing = 401
status_code api_key_invalid = 403
status_code (insufficient_credit _ _) = 402
status_code billing_unavailable = 503
status_code (rate_limited _ _ _) = 429
status_code (auth_failed _ _) = 503
status_code (session_expired _ _) = 503
status_code (challenge_required _ _) = 503
status_code (profile_not_found _ _) = 404
status_code (profile_not_visible _ _) = 403
status_code (linkedin_rate_limited _ _) = 429
status_code (linkedin_unavailable _ _) = 502
status_code (circuit_open _ _) = 503
status_code endpoint_disabled = 404
status_code (internal _) = 500

-- `Result<A, AppError>`
pub data Result {ℓ} (A : Type ℓ) : Type ℓ where
  ok : A → Result A
  err : AppError → Result A

-- `StatusCode::is_client_error`
abbrev pub is_client_error : ℕ → Bool
is_client_error s = leb 400 s && ltb s 500

-- `f64::round` of a number of seconds, and a negative one cut off at zero.
unfoldable pub round_seconds : ℕ → ℕ
round_seconds n = (n + 500_000_000) / 1_000_000_000

-- `Value::as_f64`, rounded and cut off at zero.
unfoldable pub number_seconds : Value → Option ℕ
unfolding round_seconds
number_seconds (integer (pos n)) = some n
number_seconds (integer (negsuc _)) = some 0
number_seconds (float (pos n)) = some (round_seconds n)
number_seconds (float (negsuc _)) = some 0
number_seconds _ = none

-- `details.get("retry_after_seconds")`, read as a number.
unfoldable pub retry_detail : Fields → Option ℕ
retry_detail details = elim (lookup "retry_after_seconds" details) [
  | none ↦ none
  | some v ↦ number_seconds v
]

unfoldable pub retry_after_seconds : AppError → Option ℕ
retry_after_seconds (rate_limited wait _ _) = some (round_seconds wait)
retry_after_seconds (linkedin_rate_limited _ details) = retry_detail details
retry_after_seconds (circuit_open _ details) = retry_detail details
retry_after_seconds _ = none

-- src/service/profile.rs, `clone_error`: the copy that each caller of a shared fetch gets.
unfoldable pub clone_error : AppError → AppError
clone_error (validation message field) = validation message field
clone_error (invalid_profile_url message details) = invalid_profile_url message details
clone_error api_key_missing = api_key_missing
clone_error api_key_invalid = api_key_invalid
clone_error (insufficient_credit balance required) = insufficient_credit balance required
clone_error billing_unavailable = billing_unavailable
clone_error (rate_limited wait limit window) = rate_limited wait limit window
clone_error (auth_failed message details) = auth_failed message details
clone_error (session_expired message details) = session_expired message details
clone_error (challenge_required message details) = challenge_required message details
clone_error (profile_not_found message details) = profile_not_found message details
clone_error (profile_not_visible message details) = profile_not_visible message details
clone_error (linkedin_rate_limited message details) = linkedin_rate_limited message details
clone_error (linkedin_unavailable message details) = linkedin_unavailable message details
clone_error (circuit_open message details) = circuit_open message details
clone_error endpoint_disabled = endpoint_disabled
clone_error (internal context) = internal context

pub clone_error-same : (e : AppError) → clone_error e ≡ e
unfolding clone_error
clone_error-same (validation message field) = refl
clone_error-same (invalid_profile_url message details) = refl
clone_error-same api_key_missing = refl
clone_error-same api_key_invalid = refl
clone_error-same (insufficient_credit balance required) = refl
clone_error-same billing_unavailable = refl
clone_error-same (rate_limited wait limit window) = refl
clone_error-same (auth_failed message details) = refl
clone_error-same (session_expired message details) = refl
clone_error-same (challenge_required message details) = refl
clone_error-same (profile_not_found message details) = refl
clone_error-same (profile_not_visible message details) = refl
clone_error-same (linkedin_rate_limited message details) = refl
clone_error-same (linkedin_unavailable message details) = refl
clone_error-same (circuit_open message details) = refl
clone_error-same endpoint_disabled = refl
clone_error-same (internal context) = refl
