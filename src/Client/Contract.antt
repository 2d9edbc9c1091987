-- ===== src/Client/Contract.antt =====
-- What a caller learns from the result of `fetch`.
use linkex.Shared.{
  ℕ, zero, suc, ◌+◌, max, ◌≡◌, refl, sym, ◌⊎◌, inl, inr, Bool, true, false, not, ◌&&◌, ◌||◌, Option,
  none, some, nat_eq, string_eq, Bool-cases, kept,
}
use linkex.Json.{Fields}
use linkex.Error.{AppError, Result, ok, err}
use linkex.Session.{LinkedInSession, signed_out}
use linkex.Breaker.{
  CircuitBreaker, Checked, granted, refused, panicked, closed, record_success, check,
}
use linkex.Client.Steps.{dispatch-elim}
use linkex.Client.{
  VoyagerCall, VoyagerResponse, Attempt, Client, after_send, Next, done, again, break, is_required,
  dispatch, answered, redirected, renewal, rejected, missing, other, finish, resume, loop,
  ensure_session, Fetched, returned, panic, World, with_session, checked, fetch, is_ok,
  is_throttled, is_retryable,
}

-- A payload, with the breaker closed anew, or the answer that the profile is gone.
abbrev pub Delivered : Client → VoyagerResponse → Type 0
Delivered c r = ((is_ok r ≡ true) × (c.breaker.inner ≡ closed 0)) ⊎ (r.status_code ≡ 410)

unfoldable pub Promise : Client → Result VoyagerResponse → Type 0
Promise c (ok r) = Delivered c r
Promise c (err e) = Unit

unfoldable Ends : Next → Type 0
unfolding Promise
Ends (done c result) = Promise c result
Ends (again c last renewed) = Unit
Ends (break c last) = Unit

required_or :
    (required allow_fallback : Bool)
    → (required && not allow_fallback) ≡ true
    → (required || allow_fallback) ≡ true
required_or true b h = refl
required_or false b h = cc

module _ (call : VoyagerCall) (allow_fallback : Bool) (session : LinkedInSession)
    (required : is_required call allow_fallback ≡ true) where
  answered-Ends :
      (a : Attempt) (attempt : ℕ) (renewed : Bool) (c : Client) (payload : Option Fields)
      → a.status ≡ 200
      → Ends (answered call allow_fallback session a attempt renewed c payload)
  unfolding answered is_ok record_success Ends
  answered-Ends a attempt renewed c none s = record {}
  answered-Ends a attempt renewed c (some p) s = inl (rw s, refl)

  renewal-Ends :
      (a : Attempt) (last : Option AppError) (c : Client) (answer : Result LinkedInSession)
      → Ends (renewal call allow_fallback session a last c answer)
  unfolding renewal Ends
  renewal-Ends a last c (ok fresh) = record {}
  renewal-Ends a last c (err e) = record {}

  rejected-Ends :
      (a : Attempt) (attempt : ℕ) (last : Option AppError) (renewed : Bool) (c : Client)
      → Ends (rejected call allow_fallback session a attempt last renewed c)
  unfolding rejected Ends
  rejected-Ends a attempt last renewed c = elim (Bool-cases (not renewed && not allow_fallback)) [
    | inl e ↦ rw e (renewal-Ends a last c a.reauthentication)
    | inr e ↦ rw (e, required) (record {})
  ]

  missing-Ends :
      (a : Attempt) (attempt : ℕ) (c : Client)
      → Ends (missing call allow_fallback session a attempt c)
  unfolding missing Ends
  missing-Ends a attempt c = rw (required_or call.required allow_fallback required) (record {})

  other-Ends :
      (a : Attempt) (renewed : Bool) (c : Client)
      → Ends (other call allow_fallback session a renewed c)
  unfolding other Ends
  other-Ends a renewed c = elim (Bool-cases (is_throttled a.status)) [
    | inl e ↦ rw e (record {})
    | inr e ↦ rw e (elim (Bool-cases (is_retryable a.status)) [
      | inl f ↦ rw f (record {})
      | inr f ↦ rw f (record {})
    ])
  ]

  redirected-Ends : (a : Attempt) (c : Client) → Ends (redirected call allow_fallback session a c)
  unfolding redirected Ends
  redirected-Ends a c = elim (Bool-cases (signed_out session)) [
    | inl f ↦ rw f (record {})
    | inr f ↦ rw f (record {})
  ]

  dispatch-Ends :
      (a : Attempt) (attempt : ℕ) (last : Option AppError) (renewed : Bool) (c : Client)
      → Ends (dispatch call allow_fallback session a attempt last renewed c)
  unfolding Ends
  dispatch-Ends a attempt last renewed c =
      dispatch-elim call allow_fallback session Ends a attempt last renewed c
        (answered-Ends a attempt renewed c a.payload) (λ _. redirected-Ends a c)
        (rejected-Ends a attempt last renewed c) (missing-Ends a attempt c) (λ h. inr h)
        (other-Ends a renewed c)

  module _ (attempts : ℕ) (script : ℕ → Attempt) (end_time : ℕ) where
    finish-Promise :
        (last : Option AppError) (c : Client)
        → Promise
            (finish call allow_fallback session attempts script end_time last c).0
            (finish call allow_fallback session attempts script end_time last c).1
    unfolding finish Promise
    finish-Promise last c = rw required (record {})

    resume-Promise :
        (rest : Client → Option AppError → Bool → Client × Result VoyagerResponse)
        → ((c : Client) (last : Option AppError) (renewed : Bool)
            → Promise (rest c last renewed).0 (rest c last renewed).1)
        → (n : Next) → Ends n
        → Promise
            (resume call allow_fallback session attempts script end_time rest n).0
            (resume call allow_fallback session attempts script end_time rest n).1
    unfolding resume Ends
    resume-Promise rest h (done c r) e = e
    resume-Promise rest h (again c last renewed) e = h c last renewed
    resume-Promise rest h (break c last) e = finish-Promise last c

    loop-Promise :
        (left attempt : ℕ) (last : Option AppError) (renewed : Bool) (c : Client)
        → Promise
            (loop call allow_fallback session attempts script end_time left attempt last renewed
              c).0
            (loop call allow_fallback session attempts script end_time left attempt last renewed
              c).1
    unfolding loop
    loop-Promise zero attempt last renewed c = finish-Promise last c
    loop-Promise (suc left) attempt last renewed c =
        resume-Promise
          (λ c' last' renewed'.
            loop call allow_fallback session attempts script end_time left (attempt + 1) last'
              renewed' c')
          (λ c' last' renewed'. loop-Promise left (attempt + 1) last' renewed' c')
          (dispatch call allow_fallback session (script attempt) attempt last renewed
            (after_send session (script attempt) c))
          (dispatch-Ends (script attempt) attempt last renewed
            (after_send session (script attempt) c))

module _ (max_retries : ℕ) (call : VoyagerCall) (allow_fallback : Bool) (world : World) where
  unfoldable Kept : Client × Fetched → Type 0
  Kept (c, returned result) = Promise c result
  Kept (c, panic) = Unit

  with_session-Kept :
      is_required call allow_fallback ≡ true
      → (c : Client) (answer : Result LinkedInSession)
      → Kept (with_session max_retries call allow_fallback world (c, answer))
  unfolding Kept with_session Promise
  with_session-Kept required c (err e) = record {}
  with_session-Kept required c (ok session) =
      loop-Promise call allow_fallback session required (max max_retries 1) world.script
        world.end_time (max max_retries 1) 1 none false c

  checked-Kept :
      is_required call allow_fallback ≡ true
      → (c : Client) (result : CircuitBreaker × Checked)
      → Kept (checked max_retries call allow_fallback world c result)
  unfolding Kept checked Promise
  checked-Kept required c (b, refused e) = record {}
  checked-Kept required c (b, panicked) = record {}
  checked-Kept required c (b, granted) =
      with_session-Kept required (ensure_session world.authentication (record c { breaker = b })).0
        (ensure_session world.authentication (record c { breaker = b })).1

  Kept-returned :
      (c : Client) (f : Fetched) (r : VoyagerResponse)
      → Kept (c, f)
      → f ≡ returned (ok r)
      → Delivered c r
  unfolding Kept Promise
  Kept-returned c (returned (ok s)) r kept e = let same : s ≡ r = cc in rw (sym same) kept
  Kept-returned c (returned (err s)) r kept e = cc
  Kept-returned c panic r kept e = cc

  -- A required call without a fallback that returns a response has a payload of status 200, and the
  -- breaker is then closed with no failure counted; or LinkedIn answered that the endpoint is gone.
  pub fetch-required :
      (c : Client) (r : VoyagerResponse)
      → is_required call allow_fallback ≡ true
      → (fetch max_retries call allow_fallback world c).1 ≡ returned (ok r)
      → Delivered (fetch max_retries call allow_fallback world c).0 r
  unfolding fetch
  fetch-required c r required h =
      Kept-returned (fetch max_retries call allow_fallback world c).0
        (fetch max_retries call allow_fallback world c).1 r
        (checked-Kept required c (check world.now world.later c.breaker)) h
