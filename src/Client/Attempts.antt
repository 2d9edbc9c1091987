-- ===== src/Client/Attempts.antt =====
-- How many requests one call makes, with which token, and what a success means.
use linkex.Shared.{
  ℕ, zero, suc, ◌+◌, ◌≤◌, max, String, ◌≡◌, refl, ap, ◌∙◌, inl, inr, Bool, false, Option, none,
  some, List, ◌∷◌, arith, nat_eq, string_eq,
}
use linkex.Error.{AppError, Result, ok, err}
use linkex.Session.{LinkedInSession}
use linkex.Breaker.{CircuitBreaker, Checked, granted, refused, panicked, check}
use linkex.Client.Steps.{client_of, Next-cases, next, loop-done, loop-again, loop-break, next-sent}
use linkex.Client.{
  VoyagerCall, Attempt, Client, token_of, done, again, break, finish, loop, ensure_session,
  session_for, World, with_session, checked, fetch,
}

-- `k` requests with one token, in front of a log
abbrev pub repeated : ℕ → String → List String → List String
repeated zero token log = log
repeated (suc k) token log = token ∷ repeated k token log

repeated-shift :
    (k : ℕ) (token : String) (log : List String)
    → repeated k token (token ∷ log) ≡ token ∷ repeated k token log
repeated-shift zero token log = refl
repeated-shift (suc k) token log = ap (◌∷◌ token) (repeated-shift k token log)

module _ (call : VoyagerCall) (allow_fallback : Bool) (session : LinkedInSession) (attempts : ℕ)
    (script : ℕ → Attempt) (end_time : ℕ) where
  abbrev Sends : ℕ → Client → Client → Type 0
  Sends left c c' = (k : ℕ) × (k ≤ left) × (c'.sent ≡ repeated k (token_of session) c.sent)

  finish-sent :
      (last : Option AppError) (c : Client)
      → (finish call allow_fallback session attempts script end_time last c).0.sent ≡ c.sent
  unfolding finish
  finish-sent last c = refl

  loop-end-sent :
      (attempt : ℕ) (last : Option AppError) (renewed : Bool) (c : Client)
      → (loop call allow_fallback session attempts script end_time zero attempt last renewed
          c).0.sent
        ≡ c.sent
  unfolding loop finish
  loop-end-sent attempt last renewed c = refl

  loop-sent :
      (left attempt : ℕ) (last : Option AppError) (renewed : Bool) (c : Client)
      → Sends left c
          (loop call allow_fallback session attempts script end_time left attempt last renewed c).0
  unfolding client_of
  loop-sent zero attempt last renewed c = (0, omega arith, loop-end-sent attempt last renewed c)
  loop-sent (suc left) attempt last renewed c =
      let sent =
        next-sent call allow_fallback session attempts script end_time left attempt last renewed
          c in
      elim (Next-cases
        (next call allow_fallback session attempts script end_time left attempt last renewed c)) [
          | inl (c', r, e) ↦
              rw
                (loop-done call allow_fallback session attempts script end_time left attempt last
                  renewed c c' r e)
                (1, omega arith, sent (done c' r) e)
          | inr (inl (c', last', renewed', e)) ↦
              let (k, le, log) = loop-sent left (attempt + 1) last' renewed' c' in
              rw
                (loop-again call allow_fallback session attempts script end_time left attempt last
                  renewed c c' last' renewed' e)
                (
                  suc k,
                  omega arith,
                  log
                      ∙ ap (repeated k (token_of session)) (sent (again c' last' renewed') e)
                      ∙ repeated-shift k (token_of session) c.sent,
                )
          | inr (inr (c', last', e)) ↦
              rw
                (loop-break call allow_fallback session attempts script end_time left attempt last
                  renewed c c' last' e)
                (1, omega arith, finish-sent last' c' ∙ sent (break c' last') e)
        ]

module _ (max_retries : ℕ) (call : VoyagerCall) (allow_fallback : Bool) (world : World) where
  with_session-sent :
      (c c' : Client) (session : LinkedInSession) (answer : Result LinkedInSession)
      → answer ≡ ok session
      → c'.sent ≡ c.sent
      → (k : ℕ) × (k ≤ max max_retries 1)
        × ((with_session max_retries call allow_fallback world (c', answer)).0.sent
            ≡ repeated k (token_of session) c.sent)
  unfolding with_session
  with_session-sent c c' session (err e) h log = cc
  with_session-sent c c' session (ok s) h log =
      let same : s ≡ session = cc in
      let (k, le, sent) =
        loop-sent call allow_fallback s (max max_retries 1) world.script world.end_time
          (max max_retries 1) 1 none false c' in
      (
        k,
        le,
        sent
            ∙ ap (λ t. repeated k (token_of t) c'.sent) same
            ∙ ap (repeated k (token_of session)) log,
      )

  checked-sent :
      (c : Client) (session : LinkedInSession) (b : CircuitBreaker) (result : Checked)
      → session_for c.session world.authentication ≡ ok session
      → (k : ℕ) × (k ≤ max max_retries 1)
        × ((checked max_retries call allow_fallback world c (b, result)).0.sent
            ≡ repeated k (token_of session) c.sent)
  unfolding checked ensure_session
  checked-sent c session b (refused e) h = (0, omega arith, refl)
  checked-sent c session b panicked h = (0, omega arith, refl)
  checked-sent c session b granted h = rw h (
      with_session-sent c (record c { breaker = b; session = some session }) session (ok session)
        refl refl)

  -- All requests of one call, the repeated ones too, carry the token of the session that the call
  -- began with, also after it has authenticated anew; there are at most as many of them as
  -- `max_retries` allows, and one if that is zero.
  pub fetch-sent :
      (c : Client) (session : LinkedInSession)
      → session_for c.session world.authentication ≡ ok session
      → (k : ℕ) × (k ≤ max max_retries 1)
        × ((fetch max_retries call allow_fallback world c).0.sent
            ≡ repeated k (token_of session) c.sent)
  unfolding fetch
  fetch-sent c session h =
      checked-sent c session (check world.now world.later c.breaker).0
        (check world.now world.later c.breaker).1 h
