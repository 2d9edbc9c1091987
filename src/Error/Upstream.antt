-- ===== src/Error/Upstream.antt =====
-- src/linkedin/error.rs: construction of the upstream errors.
use linkex.Shared.{String, ℕ, Bool, true, Option, none, some, List, map, ◌==◌, nat_eq, ◌||◌}
use linkex.Shared.Int.{pos}
use linkex.Json.{Fields, integer, string, array, end, put, list_items}
use linkex.Error.{AppError}

-- `details()`
abbrev pub no_details : Fields
no_details = end

unfoldable pub with_endpoint : String → Option ℕ → Fields → Fields
with_endpoint endpoint none extra = put "endpoint" (string endpoint) extra
with_endpoint endpoint (some status) extra =
    put "status_code" (integer (pos status)) (put "endpoint" (string endpoint) extra)

unfoldable pub endpoint_map : String → Option ℕ → Fields
unfolding with_endpoint
endpoint_map endpoint status = with_endpoint endpoint status no_details

unfoldable pub counts_for_breaker : Option ℕ → Bool
counts_for_breaker none = true
counts_for_breaker (some s) = s == 429 || s == 999 || s == 500 || s == 502 || s == 503 || s == 504

unfoldable pub auth_failed : String → String → AppError
auth_failed message endpoints = AppError.auth_failed message (endpoint_map endpoints none)

unfoldable pub session_expired : String → String → Option ℕ → AppError
session_expired message endpoint status =
    AppError.session_expired message (endpoint_map endpoint status)

unfoldable pub profile_not_found : String → AppError
profile_not_found endpoint =
    AppError.profile_not_found
      "No LinkedIn profile exists at that URL, or it is not visible to this account."
      (endpoint_map endpoint none)

unfoldable pub profile_not_visible : String → List String → AppError
profile_not_visible identifier attempted =
    AppError.profile_not_visible "No LinkedIn profile model returned data for this member." (
      put "attempted" (array (list_items (map string attempted)))
        (put "identifier" (string identifier) no_details))

unfoldable pub rate_limited : String → Option ℕ → AppError
rate_limited endpoint status =
    AppError.linkedin_rate_limited "LinkedIn throttled the request. Back off and retry shortly."
      (put "retry_after_seconds" (integer (pos 60)) (endpoint_map endpoint status))

unfoldable pub unavailable : String → Option ℕ → AppError
unavailable endpoint status =
    AppError.linkedin_unavailable "LinkedIn returned an unexpected response."
      (endpoint_map endpoint status)

unfoldable pub challenge_required : String → AppError
challenge_required endpoint =
    AppError.challenge_required
      "LinkedIn issued a verification challenge for this account. Complete it in a browser once, then supply a fresh li_at cookie."
      (endpoint_map endpoint none)
