-- ===== src/Repository/Enrichment.antt =====
-- The optional call of a lookup.
use linkex.Shared.{
  ◌+◌, String, ◌≡◌, inl, inr, false, Option, none, some, List, [], arith, nat_eq, string_eq,
  if◌then◌else◌, Bool-cases, is_some, length, length-append,
}
use linkex.Json.{Fields, Value}
use linkex.Error.{Result, ok, err}
use linkex.Client.{VoyagerCall, VoyagerResponse, is_ok}
use linkex.Endpoints.{dash_contact_info}
use linkex.Domain.{SourceCall}
use linkex.Repository.{
  Upstream, Trace, record_response, enrich_result, enrich, fetch_profile, finished, fetch,
}

module _ {U D : Type 0} (upstream : Upstream U) (draft_from_legacy : Fields → Option D)
    (draft_from_dash : Fields → String → Option D) where
  enrich_result-sources :
      (call : VoyagerCall) (t : Trace U) (result : Result VoyagerResponse)
      → length (enrich_result upstream draft_from_legacy draft_from_dash call t result).sources
        ≡ length t.sources + 1
  unfolding enrich_result record_response
  enrich_result-sources call t (err e) = length-append t.sources _
  enrich_result-sources call t (ok r) = elim (Bool-cases (is_ok r)) [
    | inl g ↦ rw g (length-append t.sources _)
    | inr g ↦ rw g (length-append t.sources _)
  ]

  pub enrich-sources :
      (id : Option String) (t : Trace U)
      → length (enrich upstream draft_from_legacy draft_from_dash id t).sources
        ≡ length t.sources + (if is_some id then 1 else 0)
  unfolding enrich
  enrich-sources none t = omega arith
  enrich-sources (some id) t =
      let call = dash_contact_info id in
      let (u, result) = upstream.fetch call false t.client in
      enrich_result-sources call (record t { client = u }) result

  module _ {P : Type 0} (profile_id : D → Option String)
      (assemble : D → List (String × Value) → List SourceCall → List String → P) where
    -- Once a strategy has yielded a draft the lookup succeeds, whatever becomes of the optional
    -- call: the profile is assembled from the draft and all that was collected, and the optional
    -- call is one more source where the draft has a profile id.
    pub fetch-optional :
        (identifier : String) (u : U) (t : Trace U) (d : D)
        → fetch_profile upstream draft_from_legacy draft_from_dash identifier
            (record { client = u; payloads = []; sources = []; warnings = [] })
          ≡ (t, ok (some d))
        → (t' : Trace U) × (fetch upstream draft_from_legacy draft_from_dash profile_id assemble
              identifier u
            ≡ (t', ok (assemble d t'.payloads t'.sources t'.warnings)))
          × (length t'.sources ≡ length t.sources + (if is_some (profile_id d) then 1 else 0))
    unfolding fetch finished
    fetch-optional identifier u t d h = (
      enrich upstream draft_from_legacy draft_from_dash (profile_id d) t,
      rw h,
      enrich-sources (profile_id d) t,
    )
