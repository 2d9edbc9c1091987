-- ===== src/Repository.antt =====
-- src/linkedin/repository.rs: the strategies for one profile, and its optional calls. The upstream
-- client is an interface, the state of which is passed on; the parsers (src/parser/dash.rs) and the
-- assembler (src/parser/assembler.rs) are parameters here, over the type `D` of a draft.
pub mod Chain
pub mod Enrichment
pub mod Accounting
mod Examples
use linkex.Shared.{
  ℕ, ◌+◌, String, Bool, true, false, not, ◌&&◌, ◌||◌, Option, none, some, List, [], ◌∷◌, ◌++◌, map,
  arith, ◌==◌, nat_eq, string_eq, if◌then◌else◌, get, insert,
}
use linkex.Json.{Value, Fields, object, null}
use linkex.Shared.Text.{◌&◌, decimal}
use linkex.Error.{AppError, Result, ok, err, status_code, is_client_error, error_code}
use linkex.Error.Upstream.{profile_not_found, profile_not_visible}
use linkex.Domain.{SourceCall}
use linkex.Client.{VoyagerCall, VoyagerResponse, is_ok}
use linkex.Endpoints.{dash_profile, dash_profile_minimal, dash_contact_info}

-- src/linkedin/client.rs, the trait `Upstream`: `fetch` with its `allow_fallback`.
pub record Upstream (U : Type 0) : Type 0 where
  pub fetch : VoyagerCall → Bool → U → U × Result VoyagerResponse

-- The client, and what `fetch` collects.
pub record Trace (U : Type 0) : Type 0 where
  pub client : U
  pub payloads : List (String × Value)
  pub sources : List SourceCall
  pub warnings : List String

abbrev pub payload_value : Option Fields → Value
payload_value none = null
payload_value (some m) = object m

abbrev pub source_of : VoyagerResponse → SourceCall
source_of r = record {
  endpoint = r.name;
  status_code = r.status_code;
  ok = is_ok r;
  elapsed_ms = r.elapsed_ms;
  attempts = r.attempts;
}

abbrev pub failed_source : VoyagerCall → SourceCall
failed_source call = record {
  endpoint = call.name;
  status_code = 0;
  ok = false;
  elapsed_ms = 0;
  attempts = 1;
}

unfoldable pub hint_for : String → Option String
hint_for endpoint =
    if endpoint == "contactInfo" || endpoint == "dashContactInfo"
    then some "contact details are not shared with the querying account"
    else get endpoint (
        ("skills", "endorsement counts are unavailable; profile skills were used")
        ∷ ("networkInfo", "follower and connection counts are unavailable")
        ∷ ("profileView", "the legacy profile projection has been retired by LinkedIn")
        ∷ ("dashProfile", "the decorated profile collection did not answer")
        ∷ ("dashProfileMinimal", "the undecorated profile collection did not answer")
        ∷ ("graphqlProfile", "the configured GraphQL queryId did not answer")
        ∷ [])

reason_of : Option ℕ → Option String → String
reason_of status (some code) = code
reason_of none none = "no response"
reason_of (some s) none = "HTTP " & decimal s

with_hint : String → Option String → String
with_hint message none = message
with_hint message (some hint) = message & ": " & hint

unfoldable pub warning_for : String → Option ℕ → Option String → String
unfolding reason_of with_hint
warning_for endpoint status code =
    with_hint ("Call '" & endpoint & "' unavailable (" & reason_of status code & ")")
      (hint_for endpoint)

-- 429 and 503 are named in the source besides the client errors.
unfoldable pub is_definitive : AppError → Bool
is_definitive e = is_client_error (status_code e) || status_code e == 429 || status_code e == 503

module _ {U : Type 0} where
  unfoldable pub record_response : VoyagerResponse → Trace U → Trace U
  record_response r t = record t {
    payloads = insert r.name (payload_value r.payload) t.payloads;
    sources = t.sources ++ source_of r ∷ [];
  }

  abbrev pub warn : String → Trace U → Trace U
  warn w t = record t { warnings = t.warnings ++ w ∷ [] }

  abbrev pub add_source : SourceCall → Trace U → Trace U
  add_source s t = record t { sources = t.sources ++ s ∷ [] }

abbrev pub Outcome : Type 0 → Type 0 → Type 0
Outcome U D = Trace U × Result (Option D)

-- `strategies`, for the identifier
unfoldable pub strategies : String → List VoyagerCall
strategies identifier = dash_profile identifier ∷ dash_profile_minimal identifier ∷ []

module _ {U D : Type 0} (upstream : Upstream U) (draft_from_legacy : Fields → Option D)
    (draft_from_dash : Fields → String → Option D) where
  unfoldable pub draft_of : VoyagerCall → Fields → Option D
  draft_of call m =
      if call.name == "profileView" then draft_from_legacy m else draft_from_dash m call.name

  -- What a strategy's answer leads to, with the rest of the chain by the last error.
  unfoldable pub drafted : VoyagerCall → (Trace U → Outcome U D) → Trace U → Option D → Outcome U D
  drafted call rest t (some d) = (t, ok (some d))
  drafted call rest t none =
      rest (warn ("Profile model '" & call.name & "' answered but carried no profile entity.") t)

  unfoldable pub parsed :
      VoyagerCall → (Trace U → Outcome U D) → Trace U → ℕ → Option Fields → Outcome U D
  parsed call rest t status none = rest (warn (warning_for call.name (some status) none) t)
  parsed call rest t status (some m) = drafted call rest t (draft_of call m)

  unfoldable pub answered :
      VoyagerCall → (Trace U → Outcome U D) → Trace U → VoyagerResponse → Outcome U D
  answered call rest t r =
      if not (is_ok r) && r.status_code == 404
      then (t, err (profile_not_found call.name))
      else parsed call rest t r.status_code r.payload

  unfoldable pub tried :
      VoyagerCall
      → (Option AppError → Trace U → Outcome U D)
      → Option AppError
      → Trace U
      → U × Result VoyagerResponse
      → Outcome U D
  tried call rest last t (u, ok r) =
      answered call (rest last) (record_response r (record t { client = u })) r
  tried call rest last t (u, err e) =
      if is_definitive e
      then (record t { client = u }, err e)
      else rest (some e) (add_source (failed_source call) (record t { client = u }))

  abbrev pub last_result : Option AppError → Result (Option D)
  last_result none = ok none
  last_result (some e) = err e

  unfoldable pub fetch_chain : List VoyagerCall → Option AppError → Trace U → Outcome U D
  fetch_chain [] last t = (t, last_result last)
  fetch_chain (call ∷ calls) last t =
      tried call (λ last' t'. fetch_chain calls last' t') last t (upstream.fetch call true t.client)

  unfoldable pub fetch_profile : String → Trace U → Outcome U D
  fetch_profile identifier t = fetch_chain (strategies identifier) none t

  -- One optional call, folded into what was collected.
  unfoldable pub enrich_result : VoyagerCall → Trace U → Result VoyagerResponse → Trace U
  enrich_result call t (ok r) =
      let t' = record_response r t in
      if is_ok r then t' else warn (warning_for call.name (some r.status_code) none) t'
  enrich_result call t (err e) =
      add_source (failed_source call) (warn (warning_for call.name none (some (error_code e))) t)

  unfoldable pub enrich : Option String → Trace U → Trace U
  enrich none t = t
  enrich (some profile_id) t =
      let call = dash_contact_info profile_id in
      let (u, result) = upstream.fetch call false t.client in
      enrich_result call (record t { client = u }) result

  module _ {P : Type 0} (profile_id : D → Option String)
      (assemble : D → List (String × Value) → List SourceCall → List String → P) where
    unfoldable pub finished : String → Outcome U D → Trace U × Result P
    finished identifier (t, err e) = (t, err e)
    finished identifier (t, ok none) =
        (t, err (profile_not_visible identifier (map (λ s. s.endpoint) t.sources)))
    finished identifier (t, ok (some d)) =
        let t' = enrich (profile_id d) t in (t', ok (assemble d t'.payloads t'.sources t'.warnings))

    unfoldable pub fetch : String → U → Trace U × Result P
    fetch identifier u = finished identifier (
        fetch_profile identifier
          (record { client = u; payloads = []; sources = []; warnings = [] }))
