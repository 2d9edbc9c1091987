-- ===== src/Repository/Accounting.antt =====
-- How many calls a lookup makes of the upstream, and what it reports of them.
use linkex.Shared.Text.{◌&◌}
use linkex.Shared.{
  ℕ, suc, ◌+◌, ◌≤◌, String, ◌≡◌, refl, ap, ◌∙◌, inl, inr, Bool, true, false, not, ◌&&◌, Option,
  none, some, List, [], ◌∷◌, arith, ◌==◌, nat_eq, string_eq, if◌then◌else◌, Bool-cases, is_some,
  length, length-append,
}
use linkex.Json.{Fields, Value}
use linkex.Domain.{SourceCall}
use linkex.Error.{AppError, Result, ok, err}
use linkex.Client.{VoyagerCall, VoyagerResponse, is_ok}
use linkex.Endpoints.{dash_contact_info}
use linkex.Repository.{
  Upstream, Trace, Outcome, is_definitive, record_response, warn, drafted, parsed, answered, tried,
  draft_of, fetch_chain, strategies, enrich_result, enrich, fetch_profile, finished, fetch,
  failed_source, add_source, warning_for,
}
use linkex.Repository.Enrichment.{enrich-sources}

module _ {U D : Type 0} (upstream : Upstream U) (draft_from_legacy : Fields → Option D)
    (draft_from_dash : Fields → String → Option D) (count : U → ℕ)
    (counts : (call : VoyagerCall) (fallback : Bool) (u : U)
      → count (upstream.fetch call fallback u).0 ≡ count u + 1) where
  -- The calls made since are at most so many, and for a success they are the sources added.
  abbrev Accounted : ℕ → Trace U → Outcome U D → Type 0
  Accounted n t (t', ok o) =
      (count t'.client ≤ count t.client + n)
      × (count t'.client + length t.sources ≡ count t.client + length t'.sources)
  Accounted n t (t', err e) = count t'.client ≤ count t.client + n

  -- A trace in which one more call is made and recorded.
  abbrev Recorded : Trace U → Trace U → Type 0
  Recorded t t' =
      (count t'.client ≡ count t.client + 1) × (length t'.sources ≡ length t.sources + 1)

  Accounted-after :
      (n : ℕ) (t t' : Trace U) (x : Outcome U D)
      → Recorded t t'
      → Accounted n t' x
      → Accounted (suc n) t x
  Accounted-after n t t' (t'', ok o) (one, more) (le, e) = (omega arith, omega arith)
  Accounted-after n t t' (t'', err e) (one, more) le = omega arith

  module _ (call : VoyagerCall) (n : ℕ) (rest : Trace U → Outcome U D)
      (accounted : (t : Trace U) → Accounted n t (rest t)) (t : Trace U) where
    drafted-Accounted :
        (t' : Trace U) (o : Option D)
        → Recorded t t'
        → Accounted (suc n) t (drafted upstream draft_from_legacy draft_from_dash call rest t' o)
    unfolding drafted
    drafted-Accounted t' (some d) (one, more) = (omega arith, omega arith)
    drafted-Accounted t' none r =
        let t'' =
          warn ("Profile model '" & call.name & "' answered but carried no profile entity.") t' in
        Accounted-after n t t'' (rest t'') r (accounted t'')

    parsed-Accounted :
        (t' : Trace U) (status : ℕ) (o : Option Fields)
        → Recorded t t'
        → Accounted
            (suc n)
            t
            (parsed upstream draft_from_legacy draft_from_dash call rest t' status o)
    unfolding parsed
    parsed-Accounted t' status none r =
        let t'' = warn (warning_for call.name (some status) none) t' in
        Accounted-after n t t'' (rest t'') r (accounted t'')
    parsed-Accounted t' status (some m) r =
        drafted-Accounted t' (draft_of upstream draft_from_legacy draft_from_dash call m) r

    answered-Accounted :
        (t' : Trace U) (response : VoyagerResponse)
        → Recorded t t'
        → Accounted
            (suc n)
            t
            (answered upstream draft_from_legacy draft_from_dash call rest t' response)
    unfolding answered
    answered-Accounted t' response r =
        elim (Bool-cases (not (is_ok response) && response.status_code == 404)) [
          | inl g ↦ rw g (omega (arith, r.0))
          | inr g ↦ rw g (parsed-Accounted t' response.status_code response.payload r)
        ]

  tried-Accounted :
      (call : VoyagerCall) (n : ℕ) (rest : Option AppError → Trace U → Outcome U D)
      → ((last : Option AppError) (t : Trace U) → Accounted n t (rest last t))
      → (last : Option AppError) (t : Trace U) (u : U) (result : Result VoyagerResponse)
      → count u ≡ count t.client + 1
      → Accounted
          (suc n)
          t
          (tried upstream draft_from_legacy draft_from_dash call rest last t (u, result))
  unfolding tried record_response
  tried-Accounted call n rest accounted last t u (ok r) one =
      answered-Accounted call n (rest last) (accounted last) t
        (record_response r (record t { client = u })) r (one, length-append t.sources _)
  tried-Accounted call n rest accounted last t u (err e) one = elim (Bool-cases (is_definitive e)) [
    | inl g ↦ rw g (omega (arith, one))
    | inr g ↦
        let t' = add_source (failed_source call) (record t { client = u }) in
        rw g (
          Accounted-after n t t' (rest (some e) t') (one, length-append t.sources _)
            (accounted (some e) t'))
  ]

  fetch_chain-Accounted :
      (calls : List VoyagerCall) (last : Option AppError) (t : Trace U)
      → Accounted
          (length calls)
          t
          (fetch_chain upstream draft_from_legacy draft_from_dash calls last t)
  unfolding fetch_chain
  fetch_chain-Accounted [] none t = (omega arith, refl)
  fetch_chain-Accounted [] (some e) t = omega arith
  fetch_chain-Accounted (call ∷ calls) last t =
      tried-Accounted call (length calls)
        (λ last' t'. fetch_chain upstream draft_from_legacy draft_from_dash calls last' t')
        (λ last' t'. fetch_chain-Accounted calls last' t') last t
        (upstream.fetch call true t.client).0 (upstream.fetch call true t.client).1
        (counts call true t.client)

  enrich_result-client :
      (call : VoyagerCall) (t : Trace U) (result : Result VoyagerResponse)
      → (enrich_result upstream draft_from_legacy draft_from_dash call t result).client ≡ t.client
  unfolding enrich_result record_response
  enrich_result-client call t (err e) = refl
  enrich_result-client call t (ok r) = elim (Bool-cases (is_ok r)) [ inl g ↦ rw g | inr g ↦ rw g ]

  enrich-count :
      (id : Option String) (t : Trace U)
      → count (enrich upstream draft_from_legacy draft_from_dash id t).client
        ≡ count t.client + (if is_some id then 1 else 0)
  unfolding enrich
  enrich-count none t = omega arith
  enrich-count (some id) t =
      let call = dash_contact_info id in
      let u = (upstream.fetch call false t.client).0 in
      ap count
        (enrich_result-client call (record t { client = u }) (upstream.fetch call false t.client).1)
      ∙ counts call false t.client

  module _ {P : Type 0} (profile_id : D → Option String)
      (assemble : D → List (String × Value) → List SourceCall → List String → P) where
    finished-Accounted :
        (identifier : String) (t : Trace U) (x : Outcome U D) (p : P)
        → t.sources ≡ []
        → Accounted 2 t x
        → (finished upstream draft_from_legacy draft_from_dash profile_id assemble identifier x).1
          ≡ ok p
        → (count
              (finished upstream draft_from_legacy draft_from_dash profile_id assemble identifier
                x).0.client
            ≡ count t.client
              + length
                  (finished upstream draft_from_legacy draft_from_dash profile_id assemble
                    identifier x).0.sources)
          × (count
                (finished upstream draft_from_legacy draft_from_dash profile_id assemble identifier
                  x).0.client
              ≤ count t.client + 3)
    unfolding finished
    finished-Accounted identifier t (t', err e) p none_yet a h = cc
    finished-Accounted identifier t (t', ok none) p none_yet a h = cc
    finished-Accounted identifier t (t', ok (some d)) p none_yet (le, e) h =
        let sources = enrich-sources upstream draft_from_legacy draft_from_dash (profile_id d) t' in
        let made = enrich-count (profile_id d) t' in
        let start : length t.sources ≡ 0 = ap length none_yet in
        (
          omega (arith, e, sources, made, start),
          elim (Bool-cases (is_some (profile_id d))) [
            | inl g ↦ omega (arith, le, rw g at made)
            | inr g ↦ omega (arith, le, rw g at made)
          ],
        )

    -- A lookup that succeeds has made as many calls as it reports sources, and at most three. (The
    -- client's retries are inside one call.)
    pub fetch-accounted :
        (identifier : String) (u : U) (p : P)
        → (fetch upstream draft_from_legacy draft_from_dash profile_id assemble identifier u).1
          ≡ ok p
        → (count
              (fetch upstream draft_from_legacy draft_from_dash profile_id assemble identifier
                u).0.client
            ≡ count u
              + length
                  (fetch upstream draft_from_legacy draft_from_dash profile_id assemble identifier
                    u).0.sources)
          × (count
                (fetch upstream draft_from_legacy draft_from_dash profile_id assemble identifier
                  u).0.client
              ≤ count u + 3)
    unfolding fetch fetch_profile strategies
    fetch-accounted identifier u p h =
        let t : Trace U = record { client = u; payloads = []; sources = []; warnings = [] } in
        finished-Accounted identifier t
          (fetch_chain upstream draft_from_legacy draft_from_dash (strategies identifier) none t) p
          refl (fetch_chain-Accounted (strategies identifier) none t) h
