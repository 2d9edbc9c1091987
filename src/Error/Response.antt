-- ===== src/Error/Response.antt =====
-- src/error.rs: what a client is sent for an error.
use linkex.Shared.{ℕ, String, Bool, false, Option, none, some}
use linkex.Shared.Int.{pos}
use linkex.Json.{Value, null, integer, string, object, end, put}
use linkex.Error.{
  AppError, validation, invalid_profile_url, api_key_missing, api_key_invalid, insufficient_credit,
  billing_unavailable, rate_limited, auth_failed, session_expired, challenge_required,
  profile_not_found, profile_not_visible, linkedin_rate_limited, linkedin_unavailable, circuit_open,
  endpoint_disabled, internal, error_code, status_code, retry_after_seconds, round_seconds,
}
use Prim.Native.String

-- The decimal form of a number, `format!("{}", n)`, is the standard library's.
module _ (show : ℕ → String) where
  unfoldable pub display_message : AppError → String
  display_message (rate_limited wait _ _) =
      String.◌++◌ "Too many requests. Retry in " (String.◌++◌ (show (round_seconds wait)) "s.")
  display_message (validation message _) = message
  display_message (invalid_profile_url message _) = message
  display_message api_key_missing = "Provide your API key in the X-API-Key header."
  display_message api_key_invalid = "The supplied API key is not valid."
  display_message (insufficient_credit _ _) =
      "This API key does not have enough credit for the request."
  display_message billing_unavailable = "Credit accounting is temporarily unavailable."
  display_message (auth_failed message _) = message
  display_message (session_expired message _) = message
  display_message (challenge_required message _) = message
  display_message (profile_not_found message _) = message
  display_message (profile_not_visible message _) = message
  display_message (linkedin_rate_limited message _) = message
  display_message (linkedin_unavailable message _) = message
  display_message (circuit_open message _) = message
  display_message endpoint_disabled =
      "Set EXPOSE_RAW_ENDPOINT=true to enable the raw diagnostics endpoint."
  display_message (internal _) =
      "An unexpected error occurred. Quote the request id when reporting it."

field_value : Option String → Value
field_value (some f) = string f
field_value none = null

unfoldable pub detail_value : AppError → Value
unfolding field_value
detail_value (validation _ f) = object (put "field" (field_value f) end)
detail_value (invalid_profile_url _ details) = object details
detail_value (auth_failed _ details) = object details
detail_value (session_expired _ details) = object details
detail_value (challenge_required _ details) = object details
detail_value (profile_not_found _ details) = object details
detail_value (profile_not_visible _ details) = object details
detail_value (linkedin_rate_limited _ details) = object details
detail_value (linkedin_unavailable _ details) = object details
detail_value (circuit_open _ details) = object details
detail_value (insufficient_credit balance required) =
    object (put "required_cents" (integer required) (put "balance_cents" (integer balance) end))
detail_value (rate_limited _ limit window) =
    object (put "window_seconds" (integer (pos window)) (put "limit" (integer (pos limit)) end))
detail_value _ = object end

-- src/domain/response.rs, `ErrorDetail` and `ErrorResponse`; then the response of axum with the
-- one header that the mapping sets.
pub record ErrorDetail : Type 0 where
  pub code : String
  pub message : String
  pub details : Value

pub record ErrorResponse : Type 0 where
  pub success : Bool
  pub request_id : Option String
  pub error : ErrorDetail

pub record Response : Type 0 where
  pub status : ℕ
  pub retry_after : Option ℕ
  pub body : ErrorResponse

unfoldable pub into_response : (ℕ → String) → Option String → AppError → Response
into_response show request_id e = record {
  status = status_code e;
  retry_after = retry_after_seconds e;
  body = record {
    success = false;
    request_id = request_id;
    error = record {
      code = error_code e;
      message = display_message show e;
      details = detail_value e;
    };
  };
}
