-- ===== src/Lookup/Raw.antt =====
-- src/api/profile.rs, `get_profile_raw`: the answers to five calls, each as it comes.
use linkex.Shared.{
  String, ◌≡◌, refl, ◌∙◌, ◌||◌, contains, map, is_some, inl, inr, Bool-cases, Bool, true, false,
  Option, some, List, [], ◌∷◌, if◌then◌else◌, string_eq, ◌==◌,
}
use linkex.Shared.Int.{pos}
use linkex.Shared.Options.{map_option}
use linkex.Json
use linkex.Json.{Value, Fields, put, lookup, lookup-put}
use linkex.Error.{Result, ok, err, endpoint_disabled, error_code}
use linkex.Client.{VoyagerCall, VoyagerResponse}
use linkex.Endpoints.{
  profile_view, profile_core, profile_contact_info, profile_skills, profile_network_info,
}
use linkex.Parser.{Platform}
use linkex.Repository.{Upstream, payload_value}
use linkex.Urls.{Url, ProfileRef, parse_profile_url}

unfoldable pub raw_calls : String → List VoyagerCall
raw_calls identifier =
    profile_view identifier
    ∷ profile_core identifier
    ∷ profile_contact_info identifier
    ∷ profile_skills identifier 100
    ∷ profile_network_info identifier
    ∷ []

-- what is said of one call
unfoldable pub raw_answer : Result VoyagerResponse → Value
raw_answer (ok r) = Json.object (
    put "status_code" (Json.integer (pos r.status_code))
      (put "payload" (payload_value r.payload) Json.end))
raw_answer (err e) =
    Json.object
      (put "status_code" (Json.integer (pos 0)) (put "error" (Json.string (error_code e)) Json.end))

abbrev pub body_of : ProfileRef → Fields → Value
body_of ref payloads =
    Json.object
      (put "identifier" (Json.string ref.identifier) (put "calls" (Json.object payloads) Json.end))

abbrev pub raw_names : List String
raw_names = "profileView" ∷ "profile" ∷ "contactInfo" ∷ "skills" ∷ "networkInfo" ∷ []

or_false : (b : Bool) → (b || false) ≡ b
or_false true = refl
or_false false = refl

or_true : (b : Bool) → (b || true) ≡ true
or_true true = refl
or_true false = refl

named_once :
    (name k : String) (v : Value) (payloads : Fields) (later : Bool)
    → (is_some (lookup name (put k v payloads)) || later)
      ≡ (is_some (lookup name payloads) || ((k == name) || later))
named_once name k v payloads later = elim (Bool-cases (k == name)) [
  | inl e ↦ rw (lookup-put name k v payloads, e, or_true (is_some (lookup name payloads)))
  | inr e ↦ rw (lookup-put name k v payloads, e)
]

module _ {U : Type 0} (platform : Platform) (parse : String → Option Url)
    (upstream : Upstream U) where
  -- the loop over the calls
  unfoldable pub run_raw : List VoyagerCall → Fields → U → U × Fields
  run_raw [] payloads u = (u, payloads)
  run_raw (call ∷ calls) payloads u =
      let (v, result) = upstream.fetch call true u in
      run_raw calls (put call.name (raw_answer result) payloads) v

  abbrev raw_body : ProfileRef → U × Fields → U × Result Value
  raw_body ref (u, payloads) = (u, ok (body_of ref payloads))

  abbrev raw_of : U → Result ProfileRef → U × Result Value
  raw_of u (err e) = (u, err e)
  raw_of u (ok ref) = raw_body ref (run_raw (raw_calls ref.identifier) Json.end u)

  -- `none` where the reading of the URL panics
  unfoldable pub get_profile_raw : Bool → String → U → Option (U × Result Value)
  get_profile_raw expose url u =
      if expose
      then map_option (raw_of u) (parse_profile_url platform parse url)
      else some (u, err endpoint_disabled)

  -- The answer names what it had before and each call.
  run_raw-named :
      (calls : List VoyagerCall) (payloads : Fields) (u : U) (name : String)
      → is_some (lookup name (run_raw calls payloads u).1)
        ≡ (is_some (lookup name payloads) || contains name (map (λ c. c.name) calls))
  unfolding run_raw
  run_raw-named [] payloads u name = rw (or_false (is_some (lookup name payloads)))
  run_raw-named (call ∷ calls) payloads u name =
      let (v, result) = upstream.fetch call true u in
      run_raw-named calls (put call.name (raw_answer result) payloads) v name
      ∙ named_once name call.name (raw_answer result) payloads
          (contains name (map (λ c. c.name) calls))

  -- An answer of the diagnostics names each of the five calls, whatever becomes of them, and nothing
  -- else; with the endpoint closed there is an error, and no call.
  pub get_profile_raw-named :
      (url : String) (u : U) (ref : ProfileRef) (name : String)
      → parse_profile_url platform parse url ≡ some (ok ref)
      → (get_profile_raw false url u ≡ some (u, err endpoint_disabled))
        × ((v : U) × (calls : Fields) × (get_profile_raw true url u
              ≡ some (v, ok (body_of ref calls)))
            × (is_some (lookup name calls) ≡ contains name raw_names))
  unfolding get_profile_raw raw_calls profile_view profile_core profile_contact_info profile_skills
      profile_network_info lookup
  get_profile_raw-named url u ref name h =
      let answer = run_raw (raw_calls ref.identifier) Json.end u in
      (
        refl,
        (answer.0, answer.1, rw h refl, run_raw-named (raw_calls ref.identifier) Json.end u name),
      )
