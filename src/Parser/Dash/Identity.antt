-- ===== src/Parser/Dash/Identity.antt =====
-- src/parser/dash.rs: the identity, location, contact and network of the root member.
use linkex.Shared.{String, Option, none, some, [], ◌∷◌, or_option}
use linkex.Shared.Int.{ℤ}
use linkex.Shared.Options.{◌>>=◌, map_option}
use linkex.Json
use linkex.Json.{Value, Fields, lookup, as_str, as_object}
use linkex.Domain.{ContactInfo, DateParts, ImageSet, Location, NetworkInfo}
use linkex.Draft
use linkex.Parser.{Platform}
use linkex.Parser.Texts.{
  text, integer, text_of, first_text_of, urn_id, normalise_urn, field_or_null,
}
use linkex.Parser.Dates.{parse_date}
use linkex.Parser.Images.{parse_vector_image}
use linkex.Parser.Labels.{enum_label}
use linkex.Parser.Index.{find_vector_image, first_of_type}
use linkex.Parser.Legacy.{joining, if_located, if_connected, as_bool}
use linkex.Parser.Dash.{Env, embedded, normalized, field}

unfoldable pub named : Value → Option String
named (Json.object o) = first_text_of o ("name" ∷ "defaultLocalizedName" ∷ "localizedName" ∷ [])
named v = text v

unfoldable pub image : Platform → Option Value → Option ImageSet
image platform node = node >>= (λ v. find_vector_image v 0) >>= λ vector.
    parse_vector_image platform (Json.object vector)

module _ (platform : Platform) where
  abbrev located_at : Env → Fields → Option Fields → Option Fields → Option Fields → Option Location
  located_at env root geo_location geo basic = if_located (record {
    label =
        or_option
          (or_option (geo >>= λ g. named (Json.object g))
            (first_text_of root ("geoLocationName" ∷ "locationName" ∷ [])))
          (geo >>= (λ g. field env g "country") >>= named);
    city =
        or_option (geo >>= λ g. text_of g "defaultLocalizedNameWithoutCountryName")
          (text_of root "city");
    country_code = map_option platform.to_uppercase (basic >>= λ b. text_of b "countryCode");
    geo_urn = or_option (geo >>= lookup "entityUrn") (geo_location >>= lookup "geoUrn") >>= λ v.
        normalise_urn v "geo";
    postal_code = basic >>= λ b. text_of b "postalCode";
  })

  unfoldable pub locate : Fields → Env → Option Location
  locate root env =
      let geo_location = field env root "geoLocation" >>= as_object in
      located_at env root geo_location (geo_location >>= (λ g. field env g "geo") >>= as_object)
        (lookup "location" root >>= as_object)

  unfoldable pub identity : Fields → Env → Draft.Identity
  identity root env =
      let first_name = text_of root "firstName" in
      let last_name = text_of root "lastName" in
      record {
        first_name = first_name;
        last_name = last_name;
        full_name = joining first_name last_name;
        headline = text_of root "headline";
        about = text_of root "summary";
        industry = or_option (field env root "industry" >>= named) (text_of root "industryName");
        pronouns =
            or_option (field env root "standardizedPronoun") (field env root "customPronoun")
            >>= enum_label platform;
        public_identifier = text_of root "publicIdentifier";
        member_urn = or_option (field env root "objectUrn") (lookup "entityUrn" root) >>= λ v.
            normalise_urn v "member";
        profile_id = lookup "entityUrn" root >>= as_str >>= urn_id;
        location = locate root env;
        profile_picture = image platform (field env root "profilePicture");
        background_picture = image platform (field env root "backgroundPicture");
      }

abbrev birthday_card : DateParts → ContactInfo
birthday_card birthday = record {
  emails = [];
  phone_numbers = [];
  websites = [];
  twitter_handles = [];
  birthday = some birthday;
  address = none;
  ims = [];
}

unfoldable pub contact_from_profile : Fields → Option ContactInfo
contact_from_profile root = map_option birthday_card (lookup "birthDateOn" root >>= parse_date)

abbrev following_state : Fields → Env → Option Fields
following_state root env = field env root "followingState" >>= as_object

abbrev state_entity : Env → Option Fields
state_entity embedded = none
state_entity (normalized index) = first_of_type index ("FollowingState" ∷ [])

abbrev follower_count : Option Fields → Option ℤ
follower_count entity = entity >>= λ m. integer (field_or_null "followerCount" m)

unfoldable pub network : Fields → Env → Option NetworkInfo
network root env = if_connected (record {
  followers =
      or_option (or_option (follower_count (some root)) (follower_count (following_state root env)))
        (follower_count (state_entity env));
  connections = integer (field_or_null "connectionsCount" root);
  distance = none;
  following = following_state root env >>= lookup "following" >>= as_bool;
})
