-- ===== src/Client/Steps.antt =====
-- One attempt of `fetch`, and the loop by the way an attempt ends.
use linkex.Shared.{
  ℕ, zero, suc, ◌+◌, ◌<◌, max, ◌≡◌, refl, sym, ap, ◌∙◌, ◌⊎◌, inl, inr, Bool, true, false, not, ◌&&◌,
  ◌||◌, Option, none, some, ◌∷◌, arith, ◌==◌, nat_eq, string_eq, Bool-cases,
}
use linkex.Json.{Fields}
use linkex.Error.{AppError, Result, ok, err}
use linkex.Session.{LinkedInSession, is_usable}
use linkex.Breaker.{CircuitBreaker, granted, closed, check}
use linkex.Client.{
  VoyagerCall, VoyagerResponse, Attempt, Client, token_of, after_send, Next, done, again, break,
  dispatch, answered, redirected, renewal, rejected, missing, other, finish, loop, resume,
  is_redirect, soft, ensure_session, session_for, storing, World, with_session, checked, fetch,
  returning,
}

unfoldable pub client_of : Next → Client
client_of (done c _) = c
client_of (again c _ _) = c
client_of (break c _) = c

pub Next-cases :
    (n : Next)
    → ((c : Client) × (r : Result VoyagerResponse) × (n ≡ done c r))
      ⊎ (((c : Client) × (last : Option AppError) × (renewed : Bool) × (n ≡ again c last renewed))
          ⊎ ((c : Client) × (last : Option AppError) × (n ≡ break c last)))
Next-cases (done c r) = inl (c, r, refl)
Next-cases (again c last renewed) = inr (inl (c, last, renewed, refl))
Next-cases (break c last) = inr (inr (c, last, refl))

module _ (call : VoyagerCall) (allow_fallback : Bool) (session : LinkedInSession) where
  -- What holds of the six ways to go on holds of the attempt.
  pub dispatch-elim {ℓ} :
      (P : Next → Type ℓ) (a : Attempt) (attempt : ℕ) (last : Option AppError) (renewed : Bool)
      (c : Client)
      → (a.status ≡ 200 → P (answered call allow_fallback session a attempt renewed c a.payload))
      → (is_redirect a.status ≡ true → P (redirected call allow_fallback session a c))
      → P (rejected call allow_fallback session a attempt last renewed c)
      → P (missing call allow_fallback session a attempt c)
      → (a.status ≡ 410 → P (done c (ok (soft call a attempt))))
      → P (other call allow_fallback session a renewed c)
      → P (dispatch call allow_fallback session a attempt last renewed c)
  unfolding dispatch
  dispatch-elim P a attempt last renewed c on_200 on_redirect on_rejected on_404 on_410 on_other =
      elim (Bool-cases (a.status == 200)) [
        | inl e ↦ rw e (on_200 (ground arith))
        | inr e ↦ rw e (elim (Bool-cases (is_redirect a.status)) [
          | inl f ↦ rw f (on_redirect f)
          | inr f ↦ rw f (elim (Bool-cases (a.status == 401 || a.status == 403)) [
            | inl g ↦ rw g on_rejected
            | inr g ↦ rw g (elim (Bool-cases (a.status == 404)) [
              | inl h ↦ rw h on_404
              | inr h ↦ rw h (elim (Bool-cases (a.status == 410)) [
                | inl k ↦ rw k (on_410 (ground arith))
                | inr k ↦ rw k on_other
              ])
            ])
          ])
        ])
      ]

  renewal-sent :
      (a : Attempt) (last : Option AppError) (c : Client) (answer : Result LinkedInSession)
      → (client_of (renewal call allow_fallback session a last c answer)).sent ≡ c.sent
  unfolding renewal client_of
  renewal-sent a last c (ok fresh) = refl
  renewal-sent a last c (err e) = refl

  answered-sent :
      (a : Attempt) (attempt : ℕ) (renewed : Bool) (c : Client) (payload : Option Fields)
      → (client_of (answered call allow_fallback session a attempt renewed c payload)).sent ≡ c.sent
  unfolding answered client_of
  answered-sent a attempt renewed c none = refl
  answered-sent a attempt renewed c (some p) = refl

  pub dispatch-sent :
      (a : Attempt) (attempt : ℕ) (last : Option AppError) (renewed : Bool) (c : Client)
      → (client_of (dispatch call allow_fallback session a attempt last renewed c)).sent ≡ c.sent
  unfolding client_of redirected rejected missing other
  dispatch-sent a attempt last renewed c =
      dispatch-elim (λ n. (client_of n).sent ≡ c.sent) a attempt last renewed c
        (λ _. answered-sent a attempt renewed c a.payload) (λ _. ground arith)
        (elim (Bool-cases (not renewed && not allow_fallback)) [
          | inl e ↦ rw e (renewal-sent a last c a.reauthentication)
          | inr e ↦ rw e
        ])
        refl (λ _. refl) (ground arith)

  module _ (attempts : ℕ) (script : ℕ → Attempt) (end_time : ℕ) where
    pub loop-end :
        (attempt : ℕ) (last : Option AppError) (renewed : Bool) (c : Client)
        → loop call allow_fallback session attempts script end_time zero attempt last renewed c
          ≡ finish call allow_fallback session attempts script end_time last c
    unfolding loop
    loop-end attempt last renewed c = refl

    module _ (left attempt : ℕ) (last : Option AppError) (renewed : Bool) (c : Client) where
      abbrev pub next : Next
      next =
          dispatch call allow_fallback session (script attempt) attempt last renewed
            (after_send session (script attempt) c)

      abbrev pub rest : Client × Result VoyagerResponse
      rest =
          loop call allow_fallback session attempts script end_time (suc left) attempt last renewed
            c

      pub loop-done : (c' : Client) (r : Result VoyagerResponse) → next ≡ done c' r → rest ≡ (c', r)
      unfolding loop resume
      loop-done c' r e = rw e

      pub loop-again :
          (c' : Client) (last' : Option AppError) (renewed' : Bool)
          → next ≡ again c' last' renewed'
          → rest
            ≡ loop call allow_fallback session attempts script end_time left
                (attempt + 1)
                last'
                renewed'
                c'
      unfolding loop resume
      loop-again c' last' renewed' e = rw e

      pub loop-break :
          (c' : Client) (last' : Option AppError)
          → next ≡ break c' last'
          → rest ≡ finish call allow_fallback session attempts script end_time last' c'
      unfolding loop resume
      loop-break c' last' e = rw e

      -- The log after an attempt, whatever comes next.
      pub next-sent : (n : Next) → next ≡ n → (client_of n).sent ≡ token_of session ∷ c.sent
      unfolding after_send
      next-sent n e =
          ap (λ m. (client_of m).sent) (sym e)
          ∙ dispatch-sent (script attempt) attempt last renewed
              (after_send session (script attempt) c)

    -- The first of at least one attempts, when it is the last.
    pub loop-first_done :
        (left : ℕ) (c c' : Client) (r : Result VoyagerResponse)
        → 0 < left
        → dispatch call allow_fallback session
            (script 1)
            1
            none
            false
            (after_send session (script 1) c)
          ≡ done c' r
        → loop call allow_fallback session attempts script end_time left 1 none false c ≡ (c', r)
    loop-first_done zero c c' r h e = absurd (omega (arith, h))
    loop-first_done (suc left) c c' r h e = loop-done left 1 none false c c' r e

    pub loop-first_break :
        (left : ℕ) (c c' : Client) (last : Option AppError)
        → 0 < left
        → dispatch call allow_fallback session
            (script 1)
            1
            none
            false
            (after_send session (script 1) c)
          ≡ break c' last
        → loop call allow_fallback session attempts script end_time left 1 none false c
          ≡ finish call allow_fallback session attempts script end_time last c'
    loop-first_break zero c c' last h e = absurd (omega (arith, h))
    loop-first_break (suc left) c c' last h e = loop-break left 1 none false c c' last e

module _ (max_retries : ℕ) (call : VoyagerCall) (allow_fallback : Bool) (world : World) where
  -- A call that the breaker lets through, with a usable session, is the loop.
  pub fetch-granted :
      (c : Client) (session : LinkedInSession) (b : CircuitBreaker)
      → check world.now world.later c.breaker ≡ (b, granted)
      → c.session ≡ some session
      → is_usable session ≡ true
      → fetch max_retries call allow_fallback world c
        ≡ returning (
            loop call allow_fallback session
              (max max_retries 1)
              world.script
              world.end_time
              (max max_retries 1)
              1
              none
              false
              (record c { breaker = b; session = some session }))
  unfolding fetch checked ensure_session session_for storing with_session
  fetch-granted c session b passed stored usable = rw (passed, stored, usable)

pub check-closed :
    (b : CircuitBreaker) (now later n : ℕ)
    → b.inner ≡ closed n
    → check now later b ≡ (record b { inner = closed n }, granted)
unfolding check
check-closed b now later n h = rw h
