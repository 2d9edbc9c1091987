-- ===== src/Client/Fallback.antt =====
-- A call that another strategy may replace, when LinkedIn throttles it.
use linkex.Shared.{
  ℕ, zero, suc, ◌+◌, max, ◌≡◌, refl, ap, ◌∙◌, Bool, true, false, not, ◌&&◌, Option, none, some,
  nat_eq, string_eq,
}
use linkex.Error.{AppError, ok}
use linkex.Error.Upstream.{rate_limited}
use linkex.Session.{LinkedInSession, is_usable}
use linkex.Breaker.{CircuitBreaker, granted, check}
use linkex.Client.Failures.{dispatch-throttled}
use linkex.Client.Steps.{loop-end, loop-again, fetch-granted}
use linkex.Client.{
  VoyagerCall, VoyagerResponse, Attempt, Client, after_send, failed, is_throttled, finish, loop,
  returned, World, fetch,
}

-- The response for a call that was not answered.
abbrev pub unanswered : VoyagerCall → ℕ → VoyagerResponse
unanswered call attempts = record {
  name = call.name;
  status_code = 0;
  payload = none;
  elapsed_ms = 0;
  attempts = attempts;
}

and_not-true : (b : Bool) → (b && not true) ≡ false
and_not-true true = refl
and_not-true false = refl

module _ (call : VoyagerCall) (session : LinkedInSession) (attempts : ℕ) (script : ℕ → Attempt)
    (end_time : ℕ) where
  finish-fallback :
      (last : Option AppError) (c : Client)
      → (finish call true session attempts script end_time last c).1 ≡ ok (unanswered call attempts)
  unfolding finish
  finish-fallback last c = rw (and_not-true call.required)

  loop-fallback :
      (left attempt : ℕ) (last : Option AppError) (renewed : Bool) (c : Client)
      → ((n : ℕ) → is_throttled (script n).status ≡ true)
      → (loop call true session attempts script end_time left attempt last renewed c).1
        ≡ ok (unanswered call attempts)
  loop-fallback zero attempt last renewed c h =
      ap (λ x. x.1) (loop-end call true session attempts script end_time attempt last renewed c)
      ∙ finish-fallback last c
  loop-fallback (suc left) attempt last renewed c h =
      let c' = after_send session (script attempt) c in
      ap (λ x. x.1)
        (loop-again call true session attempts script end_time left attempt last renewed c _ _ _ (
          dispatch-throttled call true session (script attempt) attempt last renewed c'
            (h attempt)))
      ∙ loop-fallback left (attempt + 1)
          (some (rate_limited call.name (some (script attempt).status))) renewed
          (failed (script attempt).time c') h

-- A call with a fallback that LinkedIn throttles at every attempt, with status 429 or 999, returns a
-- response without a payload and with the status 0, not the error for throttling.
pub fetch-fallback :
    (max_retries : ℕ) (call : VoyagerCall) (world : World) (c : Client) (session : LinkedInSession)
    (b : CircuitBreaker)
    → check world.now world.later c.breaker ≡ (b, granted)
    → c.session ≡ some session
    → is_usable session ≡ true
    → ((n : ℕ) → is_throttled (world.script n).status ≡ true)
    → (fetch max_retries call true world c).1 ≡ returned (ok (unanswered call (max max_retries 1)))
fetch-fallback max_retries call world c session b passed stored usable h =
    ap (λ x. x.1) (fetch-granted max_retries call true world c session b passed stored usable)
    ∙ ap returned (
        loop-fallback call session (max max_retries 1) world.script world.end_time
          (max max_retries 1) 1 none false (record c { breaker = b; session = some session }) h)
