-- ===== src/Repository/Chain.antt =====
-- How the chain of strategies ends.
use linkex.Shared.{
  ℕ, String, ◌≡◌, ap, ◌∙◌, true, false, Option, none, some, List, [], ◌∷◌, nat_eq, string_eq,
}
use linkex.Json.{Fields, Value}
use linkex.Error.{AppError, ok, err}
use linkex.Error.Upstream.{profile_not_visible}
use linkex.Client.{VoyagerCall, VoyagerResponse, is_ok}
use linkex.Client.Fallback.{unanswered}
use linkex.Endpoints.{dash_profile, dash_profile_minimal}
use linkex.Domain.{SourceCall}
use linkex.Repository.{
  Upstream, Trace, Outcome, failed_source, is_definitive, record_response, warn, add_source,
  strategies, draft_of, drafted, parsed, answered, tried, fetch_chain, fetch_profile, finished,
  fetch, warning_for,
}

module _ {U D : Type 0} (upstream : Upstream U) (draft_from_legacy : Fields → Option D)
    (draft_from_dash : Fields → String → Option D) where
  abbrev chain : List VoyagerCall → Option AppError → Trace U → Outcome U D
  chain = fetch_chain upstream draft_from_legacy draft_from_dash

  -- An error that no other strategy can improve on ends the chain: it is the result, and no further
  -- call is made.
  pub fetch_chain-definitive :
      (call : VoyagerCall) (calls : List VoyagerCall) (last : Option AppError) (t : Trace U) (u : U)
      (e : AppError)
      → upstream.fetch call true t.client ≡ (u, err e)
      → is_definitive e ≡ true
      → chain (call ∷ calls) last t ≡ (record t { client = u }, err e)
  unfolding fetch_chain tried
  fetch_chain-definitive call calls last t u e h d = rw (h, d)

  -- The first strategy that yields a draft ends the chain: no further call is made, an earlier error
  -- is forgotten, and its answer is the last of the sources.
  pub fetch_chain-draft :
      (call : VoyagerCall) (calls : List VoyagerCall) (last : Option AppError) (t : Trace U) (u : U)
      (r : VoyagerResponse) (m : Fields) (d : D)
      → upstream.fetch call true t.client ≡ (u, ok r)
      → r.status_code ≡ 200
      → r.payload ≡ some m
      → draft_of upstream draft_from_legacy draft_from_dash call m ≡ some d
      → chain (call ∷ calls) last t ≡ (record_response r (record t { client = u }), ok (some d))
  unfolding fetch_chain tried answered parsed drafted is_ok
  fetch_chain-draft call calls last t u r m d h status payload draft =
      rw (h, status, payload, draft)

  -- Any other error is remembered, and the next strategy is tried.
  pub fetch_chain-error :
      (call : VoyagerCall) (calls : List VoyagerCall) (last : Option AppError) (t : Trace U) (u : U)
      (e : AppError)
      → upstream.fetch call true t.client ≡ (u, err e)
      → is_definitive e ≡ false
      → chain (call ∷ calls) last t
        ≡ chain calls (some e) (add_source (failed_source call) (record t { client = u }))
  unfolding fetch_chain tried
  fetch_chain-error call calls last t u e h d = rw (h, d)

  -- What is left of a call that was not answered.
  abbrev passed_over : VoyagerCall → ℕ → Trace U → Trace U
  passed_over call n t = warn (warning_for call.name (some 0) none) (
      record_response (unanswered call n)
        (record t { client = (upstream.fetch call true t.client).0 }))

  fetch_chain-unanswered :
      (call : VoyagerCall) (calls : List VoyagerCall) (last : Option AppError) (t : Trace U) (n : ℕ)
      → (upstream.fetch call true t.client).1 ≡ ok (unanswered call n)
      → chain (call ∷ calls) last t ≡ chain calls last (passed_over call n t)
  unfolding fetch_chain tried answered parsed is_ok
  fetch_chain-unanswered call calls last t n h = rw h

  module _ {P : Type 0} (profile_id : D → Option String)
      (assemble : D → List (String × Value) → List SourceCall → List String → P) where
    -- If the upstream leaves every call with a fallback unanswered, as the client does when LinkedIn
    -- throttles it, the lookup fails with the error that the profile is not visible, and names the
    -- two strategies as attempted.
    pub fetch-unanswered :
        (identifier : String) (u : U) (n : ℕ)
        → ((call : VoyagerCall) (v : U) → (upstream.fetch call true v).1 ≡ ok (unanswered call n))
        → (fetch upstream draft_from_legacy draft_from_dash profile_id assemble identifier u).1
          ≡ err (profile_not_visible identifier ("dashProfile" ∷ "dashProfileMinimal" ∷ []))
    unfolding fetch fetch_profile fetch_chain finished strategies record_response dash_profile
        dash_profile_minimal
    fetch-unanswered identifier u n h =
        let t : Trace U = record { client = u; payloads = []; sources = []; warnings = [] } in
        let first = dash_profile identifier in
        let second = dash_profile_minimal identifier in
        ap
          (λ x.
            (finished upstream draft_from_legacy draft_from_dash profile_id assemble identifier
              x).1)
          (fetch_chain-unanswered first (second ∷ []) none t n (h first u)
            ∙ fetch_chain-unanswered second [] none (passed_over first n t) n
                (h second (passed_over first n t).client))
