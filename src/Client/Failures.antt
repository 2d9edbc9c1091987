-- ===== src/Client/Failures.antt =====
-- How many failures one call records.
use linkex.Shared.{
  ℕ, zero, suc, ◌+◌, ◌<◌, max, ◌≡◌, refl, ap, ◌∙◌, ◌⊎◌, inl, inr, Bool, true, false, Option, none,
  some, List, [], ◌∷◌, ◌++◌, arith, nat_eq, string_eq, length, length-append,
}
use linkex.Error.{AppError}
use linkex.Session.{LinkedInSession, is_usable}
use linkex.Error.Upstream.{rate_limited, unavailable}
use linkex.Breaker.{closed, record_failure}
use linkex.Breaker.Opening.{record_failures, failures-closed}
use linkex.Client.Steps.{loop-end, loop-again, check-closed, fetch-granted}
use linkex.Client.{
  VoyagerCall, Attempt, Client, after_send, again, failed, dispatch, other, is_throttled,
  is_retryable, is_redirect, finish, loop, World, fetch,
}

-- The times of the attempts from one on.
unfoldable pub times : (ℕ → Attempt) → ℕ → ℕ → List ℕ
times script zero attempt = []
times script (suc left) attempt = (script attempt).time ∷ times script left (attempt + 1)

length-times : (script : ℕ → Attempt) (left attempt : ℕ) → length (times script left attempt) ≡ left
unfolding times
length-times script zero attempt = refl
length-times script (suc left) attempt = rw (length-times script left (attempt + 1)) (omega arith)

throttled-cases : (status : ℕ) → is_throttled status ≡ true → (status ≡ 429) ⊎ (status ≡ 999)
unfolding is_throttled
throttled-cases status h = ground arith

retryable-cases :
    (status : ℕ)
    → is_retryable status ≡ true
    → is_throttled status ≡ false
    → (status ≡ 500) ⊎ ((status ≡ 502) ⊎ ((status ≡ 503) ⊎ (status ≡ 504)))
unfolding is_throttled is_retryable
retryable-cases status h k = ground arith

module _ (call : VoyagerCall) (allow_fallback : Bool) (session : LinkedInSession) where
  -- The attempt ends with the next one, and this error.
  pub dispatch-throttled :
      (a : Attempt) (attempt : ℕ) (last : Option AppError) (renewed : Bool) (c : Client)
      → is_throttled a.status ≡ true
      → dispatch call allow_fallback session a attempt last renewed c
        ≡ again (failed a.time c) (some (rate_limited call.name (some a.status))) renewed
  unfolding dispatch other is_throttled is_redirect
  dispatch-throttled a attempt last renewed c h = elim (throttled-cases a.status h) [
    | inl e ↦ rw e
    | inr e ↦ rw e
  ]

  dispatch-retryable :
      (a : Attempt) (attempt : ℕ) (last : Option AppError) (renewed : Bool) (c : Client)
      → is_retryable a.status ≡ true
      → is_throttled a.status ≡ false
      → dispatch call allow_fallback session a attempt last renewed c
        ≡ again c (some (unavailable call.name (some a.status))) renewed
  unfolding dispatch other is_throttled is_retryable is_redirect
  dispatch-retryable a attempt last renewed c h k = elim (retryable-cases a.status h k) [
    | inl e ↦ rw e
    | inr (inl e) ↦ rw e
    | inr (inr (inl e)) ↦ rw e
    | inr (inr (inr e)) ↦ rw e
  ]

  module _ (attempts : ℕ) (script : ℕ → Attempt) (end_time : ℕ) where
    finish-breaker :
        (last : Option AppError) (c : Client)
        → (finish call allow_fallback session attempts script end_time last c).0.breaker
          ≡ record_failure end_time c.breaker
    unfolding finish
    finish-breaker last c = refl

    loop-throttled :
        (left attempt : ℕ) (last : Option AppError) (renewed : Bool) (c : Client)
        → ((n : ℕ) → is_throttled (script n).status ≡ true)
        → (loop call allow_fallback session attempts script end_time left attempt last renewed
            c).0.breaker
          ≡ record_failures (times script left attempt ++ end_time ∷ []) c.breaker
    unfolding times record_failures after_send
    loop-throttled zero attempt last renewed c h =
        ap (λ x. x.0.breaker)
          (loop-end call allow_fallback session attempts script end_time attempt last renewed c)
        ∙ finish-breaker last c
    loop-throttled (suc left) attempt last renewed c h =
        let c' = after_send session (script attempt) c in
        let e = dispatch-throttled (script attempt) attempt last renewed c' (h attempt) in
        ap (λ x. x.0.breaker)
          (loop-again call allow_fallback session attempts script end_time left attempt last renewed
            c _ _ _ e)
        ∙ loop-throttled left (attempt + 1) _ renewed (failed (script attempt).time c') h

    loop-retryable :
        (left attempt : ℕ) (last : Option AppError) (renewed : Bool) (c : Client)
        → ((n : ℕ)
            → (is_retryable (script n).status ≡ true) × (is_throttled (script n).status ≡ false))
        → (loop call allow_fallback session attempts script end_time left attempt last renewed
            c).0.breaker
          ≡ record_failure end_time c.breaker
    unfolding after_send
    loop-retryable zero attempt last renewed c h =
        ap (λ x. x.0.breaker)
          (loop-end call allow_fallback session attempts script end_time attempt last renewed c)
        ∙ finish-breaker last c
    loop-retryable (suc left) attempt last renewed c h =
        let c' = after_send session (script attempt) c in
        let e =
          dispatch-retryable (script attempt) attempt last renewed c' (h attempt).0 (h attempt).1 in
        ap (λ x. x.0.breaker)
          (loop-again call allow_fallback session attempts script end_time left attempt last renewed
            c _ _ _ e)
        ∙ loop-retryable left (attempt + 1) _ renewed c' h

module _ (max_retries : ℕ) (call : VoyagerCall) (allow_fallback : Bool) (world : World) where
  -- On a closed breaker with no failure counted, a call of which every attempt is throttled records
  -- a failure for each attempt and one more; the threshold is above that number.
  pub fetch-throttled :
      (c : Client) (session : LinkedInSession)
      → c.session ≡ some session
      → is_usable session ≡ true
      → c.breaker.inner ≡ closed 0
      → max max_retries 1 + 1 < c.breaker.threshold
      → ((n : ℕ) → is_throttled (world.script n).status ≡ true)
      → (fetch max_retries call allow_fallback world c).0.breaker.inner
        ≡ closed (max max_retries 1 + 1)
  fetch-throttled c session stored usable fresh below h =
      let b = record c.breaker { inner = closed 0 } in
      let ts = times world.script (max max_retries 1) 1 ++ world.end_time ∷ [] in
      let count : length ts ≡ max max_retries 1 + 1 =
        length-append (times world.script (max max_retries 1) 1) (world.end_time ∷ [])
        ∙ rw (length-times world.script (max max_retries 1) 1) in
      ap (λ x. x.0.breaker.inner)
        (fetch-granted max_retries call allow_fallback world c session b
          (check-closed c.breaker world.now world.later 0 fresh) stored usable)
      ∙ ap (λ x. x.inner)
          (loop-throttled call allow_fallback session (max max_retries 1) world.script
            world.end_time (max max_retries 1) 1 none false
            (record c { breaker = b; session = some session }) h)
      ∙ failures-closed ts b refl (rw count below)
      ∙ ap closed count

  -- On a closed breaker with no failure counted and a threshold above one, a call of which every
  -- attempt fails with status 500, 502, 503 or 504 records one failure.
  pub fetch-retryable :
      (c : Client) (session : LinkedInSession)
      → c.session ≡ some session
      → is_usable session ≡ true
      → c.breaker.inner ≡ closed 0
      → 1 < c.breaker.threshold
      → ((n : ℕ)
          → (is_retryable (world.script n).status ≡ true)
            × (is_throttled (world.script n).status ≡ false))
      → (fetch max_retries call allow_fallback world c).0.breaker.inner ≡ closed 1
  unfolding record_failures
  fetch-retryable c session stored usable fresh below h =
      let b = record c.breaker { inner = closed 0 } in
      ap (λ x. x.0.breaker.inner)
        (fetch-granted max_retries call allow_fallback world c session b
          (check-closed c.breaker world.now world.later 0 fresh) stored usable)
      ∙ ap (λ x. x.inner)
          (loop-retryable call allow_fallback session (max max_retries 1) world.script
            world.end_time (max max_retries 1) 1 none false
            (record c { breaker = b; session = some session }) h)
      ∙ failures-closed (world.end_time ∷ []) b refl below
