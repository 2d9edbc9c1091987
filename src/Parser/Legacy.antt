-- ===== src/Parser/Legacy.antt =====
-- src/parser/legacy.rs: the identity of a member, the network and the names of contributors.
pub mod Views
pub mod Distinct
use linkex.Shared.{
  String, Bool, true, false, not, ◌&&◌, Option, none, some, List, [], ◌∷◌, ◌++◌, is_none, or_option,
  if◌then◌else◌,
}
use linkex.Shared.Options.{◌>>=◌, map_option, filter, filter_map, find_map, flatten, unwrap_or}
use linkex.Shared.Text.{is_nil, join, non_empty}
use linkex.Json
use linkex.Json.{Value, Fields, lookup, as_str, as_object, as_array, null}
use linkex.Domain.{ImageSet, Location, NetworkInfo}
use linkex.Draft.{Identity}
use linkex.Parser.{Platform}
use linkex.Parser.Texts.{
  text, integer, text_of, first_text_of, urn_id, normalise_urn, field_or_null,
}
use linkex.Parser.Images.{parse_vector_image}
use linkex.Parser.Labels.{enum_label, objects_in}

abbrev pub or_find {ℓ κ} : {A : Type ℓ} {B : Type κ} → (A → Option B) → List A → List A → Option B
or_find f merged minis = or_option (find_map f merged) (find_map f minis)

unfoldable pub joining : Option String → Option String → Option String
joining first last = non_empty (join " " (flatten (first ∷ last ∷ [])))

unfoldable pub normalise_from : List Fields → List String → String → Option String
normalise_from sources keys entity =
    find_map (λ s. find_map (λ k. lookup k s) keys) sources >>= λ v. normalise_urn v entity

unfoldable pub first_text_from : List Fields → List String → Option String
first_text_from sources keys = find_map (λ s. first_text_of s keys) sources

-- the `basicLocation` of a `location`
abbrev basic_location : Fields → Option Fields
basic_location s = lookup "location" s >>= as_object >>= lookup "basicLocation" >>= as_object

abbrev geo_urn_in : Fields → Option Value
geo_urn_in s = lookup "geoLocation" s >>= as_object >>= λ geo.
    or_option (lookup "geoUrn" geo) (lookup "geoUrn" s)

-- A location without any part is none.
unfoldable pub if_located : Location → Option Location
if_located l =
    if is_none l.label
      && is_none l.city
      && is_none l.country_code
      && is_none l.geo_urn
      && is_none l.postal_code
    then none
    else some l

abbrev images_under : Platform → List String → Fields → Option ImageSet
images_under platform keys source =
    find_map (λ key. lookup key source >>= parse_vector_image platform) keys

unfoldable pub picture : Platform → List Fields → List Fields → List String → Option ImageSet
picture platform merged minis keys = or_find (images_under platform keys) merged minis

module _ (platform : Platform) where
  abbrev located_in : List Fields → Option Location
  located_in all = if_located (record {
    label =
        find_map (λ s. first_text_of s ("geoLocationName" ∷ "locationName" ∷ "geoCountryName" ∷ []))
          all;
    city = find_map (λ s. text_of s "city") all;
    country_code =
        map_option platform.to_uppercase
          (find_map (λ s. basic_location s >>= λ b. text_of b "countryCode") all);
    geo_urn = find_map geo_urn_in all >>= λ v. normalise_urn v "geo";
    postal_code = find_map (λ s. basic_location s >>= λ b. text_of b "postalCode") all;
  })

  unfoldable pub location : List Fields → List Fields → Option Location
  location merged minis = located_in (merged ++ minis)

  abbrev identity_of : List Fields → List Fields → Identity
  identity_of merged minis =
      let first_name = or_find (λ s. text_of s "firstName") merged minis in
      let last_name = or_find (λ s. text_of s "lastName") merged minis in
      record {
        first_name = first_name;
        last_name = last_name;
        full_name = joining first_name last_name;
        headline = first_text_from merged ("headline" ∷ "occupation" ∷ []);
        about = first_text_from merged ("summary" ∷ []);
        industry = first_text_from merged ("industryName" ∷ []);
        pronouns =
            or_option (find_map (lookup "standardizedPronoun") merged)
              (find_map (lookup "customPronoun") merged)
            >>= enum_label platform;
        public_identifier = first_text_from merged ("publicIdentifier" ∷ []);
        member_urn =
            or_option (normalise_from merged ("objectUrn" ∷ "entityUrn" ∷ []) "member")
              (normalise_from minis ("objectUrn" ∷ "entityUrn" ∷ []) "member");
        profile_id = or_find (lookup "entityUrn") merged minis >>= as_str >>= urn_id;
        location = location merged minis;
        profile_picture = picture platform merged minis ("picture" ∷ "profilePicture" ∷ []);
        background_picture =
            picture platform merged minis ("backgroundImage" ∷ "backgroundPicture" ∷ []);
      }

  unfoldable pub parse_identity : List (Option Fields) → Identity
  parse_identity sources =
      identity_of (flatten sources)
        (filter_map (λ s. lookup "miniProfile" s >>= as_object) (flatten sources))

abbrev distance_value : Option Value → Value
distance_value none = null
distance_value (some (Json.object o)) = unwrap_or (Json.object o) (lookup "value" o)
distance_value (some v) = v

-- A network without any number, distance or flag is none.
unfoldable pub if_connected : NetworkInfo → Option NetworkInfo
if_connected n =
    if is_none n.followers && is_none n.connections && is_none n.distance && is_none n.following
    then none
    else some n

-- `Value::as_bool`
abbrev pub as_bool : Value → Option Bool
as_bool (Json.bool b) = some b
as_bool _ = none

unfoldable pub parse_network : Fields → Option NetworkInfo
parse_network payload = if_connected (record {
  followers = integer (field_or_null "followersCount" payload);
  connections = integer (field_or_null "connectionsCount" payload);
  distance = text (distance_value (lookup "distance" payload));
  following = lookup "following" payload >>= as_bool;
})

-- the first and the last name of a contributor
abbrev name_parts : Option Fields → String
name_parts member = join " " (
    filter (λ p. not (is_nil p))
      (unwrap_or "" (member >>= λ m. text_of m "firstName")
        ∷ unwrap_or "" (member >>= λ m. text_of m "lastName")
        ∷ []))

abbrev contributor_name : Fields → Option String
contributor_name item =
    non_empty (unwrap_or (name_parts (lookup "member" item >>= as_object)) (text_of item "name"))

unfoldable pub contributor_names : Value → List String
contributor_names value = filter_map contributor_name (objects_in (as_array value))
