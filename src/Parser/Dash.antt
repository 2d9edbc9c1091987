-- ===== src/Parser/Dash.antt =====
-- src/parser/dash.rs: the two envelopes of a Dash profile, reduced to a root and its collections.
pub mod Identity
pub mod Positions
pub mod Sections
pub mod Document
use linkex.Shared.{
  ℕ, zero, suc, ◌+◌, String, Bool, true, false, ◌&&◌, ◌||◌, Option, none, some, List, [], ◌∷◌, ◌==◌,
  string_eq, map, leb, get, is_some, or_option, if◌then◌else◌,
}
use linkex.Shared.Options.{◌>>=◌, filter, find_map, unwrap_or}
use linkex.Json
use linkex.Json.{Value, Fields, lookup, as_str, as_object, as_array}
use linkex.Parser.Labels.{objects_in}
use linkex.Parser.Index
use linkex.Parser.Index.{EntityIndex}

-- each collection: its embedded key and the suffixes of its normalised types
abbrev pub section_sources : List (String × List String)
section_sources =
    ("profilePositionGroups", "ProfilePositionGroup" ∷ "PositionGroup" ∷ [])
    ∷ ("profilePositions", "ProfilePosition" ∷ "Position" ∷ [])
    ∷ ("profileEducations", "ProfileEducation" ∷ "Education" ∷ [])
    ∷ ("profileSkills", "ProfileSkill" ∷ "Skill" ∷ [])
    ∷ ("profileCertifications", "ProfileCertification" ∷ "Certification" ∷ [])
    ∷ ("profileLanguages", "ProfileLanguage" ∷ "Language" ∷ [])
    ∷ ("profileProjects", "ProfileProject" ∷ "Project" ∷ [])
    ∷ ("profilePublications", "ProfilePublication" ∷ "Publication" ∷ [])
    ∷ ("profileHonors", "ProfileHonor" ∷ "Honor" ∷ [])
    ∷ ("profileVolunteerExperiences", "ProfileVolunteerExperience" ∷ "VolunteerExperience" ∷ [])
    ∷ ("profileCourses", "ProfileCourse" ∷ "Course" ∷ [])
    ∷ ("profilePatents", "ProfilePatent" ∷ "Patent" ∷ [])
    ∷ ("profileTestScores", "ProfileTestScore" ∷ "TestScore" ∷ [])
    ∷ ("profileOrganizations", "ProfileOrganization" ∷ "Organization" ∷ [])
    ∷ []

pub data Env : Type 0 where
  embedded : Env
  normalized : EntityIndex → Env

unfoldable pub field : Env → Fields → String → Option Value
field embedded entity key = lookup key entity
field (normalized index) entity key = Index.field index (some entity) key

pub record Extracted : Type 0 where
  pub root : Fields
  pub collections : List (String × List Fields)
  pub env : Env

unfoldable pub elements_from_value : Value → List Fields
elements_from_value (Json.object o) = objects_in (lookup "elements" o >>= as_array)
elements_from_value (Json.array items) = objects_in (as_array (Json.array items))
elements_from_value _ = []

unfoldable pub looks_like_member : Fields → Bool
looks_like_member entity =
    is_some (lookup "firstName" entity)
    || is_some (lookup "lastName" entity)
    || is_some (lookup "publicIdentifier" entity)
    || is_some (lookup "headline" entity)

abbrev member_in : Value → Option Fields
member_in candidate = as_object candidate >>= λ m. if looks_like_member m then some m else none

abbrev items_of : Option (List Value) → List Value
items_of items = unwrap_or [] items

unfoldable pub embedded_root : Value → Option Fields
embedded_root payload = as_object payload >>= λ obj.
    or_option (find_map member_in (items_of (lookup "elements" obj >>= as_array)))
      (if looks_like_member obj then some obj else none)

-- `Map::len`
abbrev size : Fields → ℕ
size Json.end = 0
size (Json.field _ _ m) = suc (size m)

-- `max_by_key`: the last of the greatest
abbrev larger : Fields → Option Fields → Option Fields
larger m none = some m
larger m (some n) = if leb (size m) (size n) then some n else some m

unfoldable pub largest : List Fields → Option Fields
largest [] = none
largest (m ∷ ms) = larger m (largest ms)

abbrev first_item : Value → Option Value
first_item (Json.array Json.nil) = none
first_item (Json.array (Json.cons v _)) = some v
first_item (Json.string s) = some (Json.string s)
first_item _ = none

abbrev root_pointer : EntityIndex → Option String
root_pointer index =
    index.content
    >>= (λ d. or_option (lookup "*elements" d) (lookup "*profile" d))
    >>= first_item
    >>= as_str

-- the candidate whose URN is the pointer's
abbrev pointed_at : List Fields → String → Option Fields
pointed_at candidates pointer =
    find_map
      (λ c. lookup "entityUrn" c >>= as_str >>= λ urn. if urn == pointer then some c else none)
      candidates

abbrev root_among : List Fields → Option String → Option Fields
root_among candidates pointer = or_option (pointer >>= pointed_at candidates) (largest candidates)

unfoldable pub normalised_root : EntityIndex → Option Fields
normalised_root index =
    root_among (filter looks_like_member (Index.of_type index ("profile.Profile" ∷ "Profile" ∷ [])))
      (root_pointer index)

abbrev collected : Fields → List (String × List Fields)
collected root =
    map
      (λ source.
        (source.0, unwrap_or [] (lookup source.0 root >>= λ v. some (elements_from_value v))))
      section_sources

abbrev extract_normalized : Value → Option Extracted
extract_normalized payload = Index.new payload >>= λ index. normalised_root index >>= λ root.
    some (record { root = root; collections = []; env = normalized index })

abbrev extract_embedded : Value → Option Extracted
extract_embedded payload = embedded_root payload >>= λ root.
    some (record { root = root; collections = collected root; env = embedded })

unfoldable pub extract : Value → Option Extracted
extract payload = as_object payload >>= λ obj.
    if is_some (lookup "included" obj) || is_some (lookup "data" obj)
    then extract_normalized payload
    else extract_embedded payload

-- The keys are those of `section_sources`, so the `expect` never fails.
abbrev entities_in : Env → List (String × List Fields) → String → List Fields
entities_in embedded collections key = unwrap_or [] (get key collections)
entities_in (normalized index) collections key =
    Index.of_type index (unwrap_or [] (get key section_sources))

unfoldable pub entities_of : Extracted → String → List Fields
entities_of extracted key = entities_in extracted.env extracted.collections key
