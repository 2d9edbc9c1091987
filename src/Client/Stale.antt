-- ===== src/Client/Stale.antt =====
-- What a redirect does to a call.
use linkex.Shared.{
  ℕ, max, ◌≡◌, ap, ◌∙◌, Bool, true, false, none, some, arith, ◌==◌, nat_eq, string_eq,
}
use linkex.Error.{AppError, err}
use linkex.Error.Upstream.{unavailable}
use linkex.Session.{LinkedInSession, is_usable, signed_out}
use linkex.Session.Tombstone.{is_usable_iff}
use linkex.Breaker.{CircuitBreaker, granted, check, record_failure}
use linkex.Client.Steps.{loop-first_break, fetch-granted}
use linkex.Client.{
  VoyagerCall, Attempt, Client, after_send, break, dispatch, redirected, finish, is_redirect,
  is_required, returned, World, fetch, returning,
}

not_200 : (status : ℕ) → is_redirect status ≡ true → (status == 200) ≡ false
unfolding is_redirect
not_200 status h = ground arith

module _ (max_retries : ℕ) (call : VoyagerCall) (allow_fallback : Bool) (world : World) where
  dispatch-redirect :
      (session : LinkedInSession) (a : Attempt) (c : Client)
      → signed_out session ≡ false
      → is_redirect a.status ≡ true
      → dispatch call allow_fallback session a 1 none false c
        ≡ break c (some (unavailable call.name (some a.status)))
  unfolding dispatch redirected
  dispatch-redirect session a c usable h = rw (not_200 a.status h, h, usable)

  finish-required :
      (session : LinkedInSession) (attempts : ℕ) (script : ℕ → Attempt) (end_time : ℕ)
      (e : AppError) (c : Client)
      → is_required call allow_fallback ≡ true
      → finish call allow_fallback session attempts script end_time (some e) c
        ≡ (record c { breaker = record_failure end_time c.breaker }, err e)
  unfolding finish
  finish-required session attempts script end_time e c required = rw required

  -- A required call with a usable session whose first request LinkedIn redirects, as it does when it
  -- signs a session out, fails as unavailable and never as an expired session, whatever cookies the
  -- reply brings; it counts as one failure.
  pub fetch-redirect :
      (c : Client) (session : LinkedInSession) (b : CircuitBreaker)
      → check world.now world.later c.breaker ≡ (b, granted)
      → c.session ≡ some session
      → is_usable session ≡ true
      → is_required call allow_fallback ≡ true
      → is_redirect (world.script 1).status ≡ true
      → ((fetch max_retries call allow_fallback world c).1
          ≡ returned (err (unavailable call.name (some (world.script 1).status))))
        × ((fetch max_retries call allow_fallback world c).0.breaker
            ≡ record_failure world.end_time b)
  unfolding after_send
  fetch-redirect c session b passed stored usable required h =
      let c' = record c { breaker = b; session = some session } in
      let (_, _, _, _, alive) = (is_usable_iff session).0 usable in
      let e =
        fetch-granted max_retries call allow_fallback world c session b passed stored usable
        ∙ ap returning (
            loop-first_break call allow_fallback session (max max_retries 1) world.script
              world.end_time (max max_retries 1) c' _ _ (omega arith)
              (dispatch-redirect session (world.script 1) (after_send session (world.script 1) c')
                alive h)
            ∙ finish-required session (max max_retries 1) world.script world.end_time _ _
                required) in
      (ap (λ x. x.1) e, ap (λ x. x.0.breaker) e)
