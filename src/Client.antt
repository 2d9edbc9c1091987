-- ===== src/Client.antt =====
-- src/linkedin/client.rs, `VoyagerClient::fetch`: one upstream call with its retries. What the
-- network answers is a script: for each attempt its reply, the cookies then in the jar, what a new
-- authentication would give, and the reading of the clock. Sleeping and pacing have no effect here;
-- the pacing is in Throttle.antt. The log `sent` holds the CSRF token of each request, in order,
-- newest first; the source keeps no such log.
pub mod Steps
pub mod Attempts
pub mod Contract
pub mod Failures
pub mod HalfOpen
pub mod Stale
pub mod Fallback
mod Examples
use linkex.Shared.{
  ℕ, zero, suc, ◌+◌, ◌-◌, ◌≤◌, max, String, Bool, true, false, not, ◌&&◌, ◌||◌, Option, none, some,
  List, [], ◌∷◌, arith, ◌==◌, nat_eq, string_eq, if◌then◌else◌, is_some, get,
}
use linkex.Shared.Int.{
  ℤ, pos, negsuc, pos_part, neg_part, sub_ℕ, ◌+ℤ◌, ◌-ℤ◌, ◌≤ℤ◌, ltb_ℤ, leb_ℤ, int_eq, +ℤ_parts,
  -ℤ_parts, eq_of_parts, int_laws,
}
use linkex.Json.{Fields}
use linkex.Error.{AppError, Result, ok, err}
use linkex.Error.Upstream.{session_expired, profile_not_found, rate_limited, unavailable}
use linkex.Session.{Cookies, LinkedInSession, is_usable, signed_out, csrf_token, merge_cookies}
use linkex.Breaker.{
  CircuitBreaker, Checked, granted, refused, panicked, record_success, record_failure,
}
use linkex.Breaker

pub record VoyagerCall : Type 0 where
  pub name : String
  pub path : String
  pub params : List (String × String)
  pub required : Bool
  pub normalized : Bool

pub record VoyagerResponse : Type 0 where
  pub name : String
  pub status_code : ℕ
  pub payload : Option Fields
  pub elapsed_ms : ℕ
  pub attempts : ℕ

-- `VoyagerResponse::ok`
unfoldable pub is_ok : VoyagerResponse → Bool
is_ok r = r.status_code == 200 && is_some r.payload

-- One attempt of the script; a transport error has the status 0.
pub record Attempt : Type 0 where
  pub status : ℕ
  pub payload : Option Fields
  pub elapsed_ms : ℕ
  pub jar : Cookies
  pub reauthentication : Result LinkedInSession
  pub time : ℕ

pub record Client : Type 0 where
  pub breaker : CircuitBreaker
  pub session : Option LinkedInSession
  pub sent : List String

unfoldable pub is_redirect : ℕ → Bool
is_redirect s = s == 301 || s == 302 || s == 303 || s == 307 || s == 308

-- `LINKEDIN_THROTTLE_STATUS` and `RETRYABLE_STATUS`
unfoldable pub is_throttled : ℕ → Bool
is_throttled s = s == 429 || s == 999

unfoldable pub is_retryable : ℕ → Bool
is_retryable s = s == 429 || s == 500 || s == 502 || s == 503 || s == 504 || s == 999

abbrev pub token_of : LinkedInSession → String
token_of s = elim (csrf_token s) [ none ↦ "" | some t ↦ t ]

-- `cookies.iter().all(|(k, v)| …)`
abbrev holds_value : Option String → String → Bool
holds_value none v = false
holds_value (some existing) v = existing == v

all_in : Cookies → Cookies → Bool
all_in [] old = true
all_in ((k, v) ∷ cookies) old = holds_value (get k old) v && all_in cookies old

-- The cookies of the jar, folded into a copy of the caller's session, are stored if one is new.
unfoldable pub absorb : LinkedInSession → Cookies → Option LinkedInSession → Option LinkedInSession
unfolding all_in
absorb session jar stored =
    let copy = merge_cookies jar session in
    if all_in copy.cookies session.cookies then stored else some copy

-- `send`: the request goes out with the token of the caller's session; a reply brings cookies.
unfoldable pub after_send : LinkedInSession → Attempt → Client → Client
unfolding absorb
after_send session a c = record c {
  session = if a.status == 0 then c.session else absorb session a.jar c.session;
  sent = token_of session ∷ c.sent;
}

-- How an attempt ends: with the result of `fetch`, with the next attempt, or with `break`. The last
-- error and whether `fetch` has authenticated anew go along.
pub data Next : Type 0 where
  done : Client → Result VoyagerResponse → Next
  again : Client → Option AppError → Bool → Next
  break : Client → Option AppError → Next

abbrev pub failed : ℕ → Client → Client
failed time c = record c { breaker = record_failure time c.breaker }

abbrev pub succeeded : Client → Client
succeeded c = record c { breaker = record_success c.breaker }

abbrev pub soft : VoyagerCall → Attempt → ℕ → VoyagerResponse
soft call a attempt = record {
  name = call.name;
  status_code = a.status;
  payload = none;
  elapsed_ms = a.elapsed_ms;
  attempts = attempt;
}

-- `call.required && !allow_fallback`
abbrev pub is_required : VoyagerCall → Bool → Bool
is_required call allow_fallback = call.required && not allow_fallback

module _ (call : VoyagerCall) (allow_fallback : Bool) (session : LinkedInSession) where
  -- status 200
  unfoldable pub answered : Attempt → ℕ → Bool → Client → Option Fields → Next
  answered a attempt renewed c (some payload) =
      done (succeeded c) (ok (record (soft call a attempt) { payload = some payload }))
  answered a attempt renewed c none = again c (some (unavailable call.name (some 200))) renewed

  unfoldable pub redirected : Attempt → Client → Next
  redirected a c =
      if signed_out session
      then done c (
          err (
            session_expired
              "LinkedIn signed this session out mid-request. Capture a fresh cookie set from a signed-in browser (the whole Cookie header)."
              call.name (some a.status)))
      else break c (some (unavailable call.name (some a.status)))

  unfoldable pub renewal : Attempt → Option AppError → Client → Result LinkedInSession → Next
  renewal a last c (ok fresh) = again (record c { session = some fresh }) last true
  renewal a last c (err e) = done (failed a.time c) (err e)

  -- status 401 and 403
  unfoldable pub rejected : Attempt → ℕ → Option AppError → Bool → Client → Next
  rejected a attempt last renewed c =
      if not renewed && not allow_fallback
      then renewal a last c a.reauthentication
      else done (failed a.time c) (
          if is_required call allow_fallback
          then err (
              session_expired "The LinkedIn session cookie is no longer valid; re-seed credentials."
                call.name (some a.status))
          else ok (soft call a attempt))

  unfoldable pub missing : Attempt → ℕ → Client → Next
  missing a attempt c = done c (
      if call.required || allow_fallback
      then err (profile_not_found call.name)
      else ok (soft call a attempt))

  -- The statuses from 429 on, and those that no branch names.
  unfoldable pub other : Attempt → Bool → Client → Next
  other a renewed c =
      if is_throttled a.status
      then again (failed a.time c) (some (rate_limited call.name (some a.status))) renewed
      else if is_retryable a.status
      then again c (some (unavailable call.name (some a.status))) renewed
      else break c (some (unavailable call.name (some a.status)))

  unfoldable pub dispatch : Attempt → ℕ → Option AppError → Bool → Client → Next
  dispatch a attempt last renewed c =
      if a.status == 200
      then answered a attempt renewed c a.payload
      else if is_redirect a.status
      then redirected a c
      else if a.status == 401 || a.status == 403
      then rejected a attempt last renewed c
      else if a.status == 404
      then missing a attempt c
      else if a.status == 410
      then done c (ok (soft call a attempt))
      else other a renewed c

  abbrev pub last_or : Option AppError → AppError
  last_or none = unavailable call.name none
  last_or (some e) = e

  module _ (attempts : ℕ) (script : ℕ → Attempt) (end_time : ℕ) where
    -- What stands behind the loop.
    unfoldable pub finish : Option AppError → Client → Client × Result VoyagerResponse
    finish last c = (
      failed end_time c,
      (if is_required call allow_fallback
          then err (last_or last)
          else ok (record {
            name = call.name;
            status_code = 0;
            payload = none;
            elapsed_ms = 0;
            attempts = attempts;
          })),
    )

    -- What the end of an attempt leads to, given the rest of the loop.
    unfoldable pub resume :
        (Client → Option AppError → Bool → Client × Result VoyagerResponse)
        → Next
        → Client × Result VoyagerResponse
    resume rest (done c r) = (c, r)
    resume rest (again c last renewed) = rest c last renewed
    resume rest (break c last) = finish last c

    -- `for attempt in 1..=attempts`, with the number of attempts that are left.
    unfoldable pub loop : ℕ → ℕ → Option AppError → Bool → Client → Client × Result VoyagerResponse
    loop zero attempt last renewed c = finish last c
    loop (suc left) attempt last renewed c =
        resume (λ c' last' renewed'. loop left (attempt + 1) last' renewed' c')
          (dispatch (script attempt) attempt last renewed (after_send session (script attempt) c))

-- `ensure_session(false)`: the stored session if it is usable, and a new one otherwise.
unfoldable pub session_for :
    Option LinkedInSession → Result LinkedInSession → Result LinkedInSession
session_for none new = new
session_for (some s) new = if is_usable s then ok s else new

unfoldable pub storing : Client → Result LinkedInSession → Client × Result LinkedInSession
storing c (ok s) = (record c { session = some s }, ok s)
storing c (err e) = (c, err e)

unfoldable pub ensure_session : Result LinkedInSession → Client → Client × Result LinkedInSession
unfolding storing
ensure_session authentication c = storing c (session_for c.session authentication)

pub data Fetched : Type 0 where
  returned : Result VoyagerResponse → Fetched
  panic : Fetched

-- The environment of one call of `fetch`.
pub record World : Type 0 where
  pub now : ℕ
  pub later : ℕ
  pub authentication : Result LinkedInSession
  pub script : ℕ → Attempt
  pub end_time : ℕ

abbrev pub returning : Client × Result VoyagerResponse → Client × Fetched
returning (c, r) = (c, returned r)

module _ (max_retries : ℕ) (call : VoyagerCall) (allow_fallback : Bool) (world : World) where
  unfoldable pub with_session : Client × Result LinkedInSession → Client × Fetched
  with_session (c, err e) = (c, returned (err e))
  with_session (c, ok session) = returning (
      loop call allow_fallback session (max max_retries 1) world.script world.end_time
        (max max_retries 1) 1 none false c)

  unfoldable pub checked : Client → CircuitBreaker × Checked → Client × Fetched
  unfolding with_session
  checked c (b, refused e) = (record c { breaker = b }, returned (err e))
  checked c (b, panicked) = (record c { breaker = b }, panic)
  checked c (b, granted) =
      with_session (ensure_session world.authentication (record c { breaker = b }))

  unfoldable pub fetch : Client → Client × Fetched
  unfolding checked
  fetch c = checked c (Breaker.check world.now world.later c.breaker)
