-- ===== src/Endpoints.antt =====
-- src/linkedin/endpoints.rs: the requests that the service makes of LinkedIn.
pub mod Safety
pub mod Spelled
mod Examples
use linkex.Shared.{
  ℕ, ◌+◌, ◌-◌, ◌/◌, ◌%◌, String, Bool, true, false, ◌&&◌, ◌||◌, List, [], ◌∷◌, arith, ltb, leb,
  ◌==◌, nat_eq, string_eq, if◌then◌else◌,
}
use Prim.Native.Char.{Char, code}
use text.Mathlib.Text.{starts_with}
use linkex.Shared.Text.{◌&◌, decimal, char_or}
use linkex.Client.{VoyagerCall}

abbrev pub base_url : String
base_url = "https://www.linkedin.com"

abbrev pub voyager_prefix : String
voyager_prefix = "/voyager/api"

abbrev pub dash_decoration : String
dash_decoration = "com.linkedin.voyager.dash.deco.identity.profile"

abbrev pub dash_decoration_version : ℕ
dash_decoration_version = 101

unfoldable pub is_unreserved : ℕ → Bool
is_unreserved n =
    (leb b'A' n && leb n b'Z')
    || (leb b'a' n && leb n b'z')
    || (leb b'0' n && leb n b'9')
    || n == b'-'
    || n == b'.'
    || n == b'_'
    || n == b'~'

-- The UTF-8 of a character, of which `as_bytes` is made.
unfoldable pub utf8 : ℕ → List ℕ
utf8 n =
    if ltb n 0x80
    then n ∷ []
    else if ltb n 0x800
    then (0xC0 + n / 64) ∷ (0x80 + n % 64) ∷ []
    else if ltb n 0x10000
    then (0xE0 + n / 4096) ∷ (0x80 + n / 64 % 64) ∷ (0x80 + n % 64) ∷ []
    else (0xF0 + n / 262144) ∷ (0x80 + n / 4096 % 64) ∷ (0x80 + n / 64 % 64) ∷ (0x80 + n % 64) ∷ []

-- a digit of `{:02X}`
unfoldable pub nibble : ℕ → Char
nibble n = char_or "F" "0123456789ABCDE" n

-- `%` and two digits, in front of a text
abbrev percent : ℕ → String → String
percent byte rest =
    String.◌∷◌ "%" (String.◌∷◌ (nibble (byte / 16)) (String.◌∷◌ (nibble (byte % 16)) rest))

unfoldable pub percent_all : List ℕ → String → String
percent_all [] rest = rest
percent_all (byte ∷ bytes) rest = percent byte (percent_all bytes rest)

-- `seg`: a byte that is unreserved is a character of its own.
unfoldable pub seg : String → String
seg String.[] = String.[]
seg (String.◌∷◌ c s) =
    let rest = seg s in
    if is_unreserved (code c) then String.◌∷◌ c rest else percent_all (utf8 (code c)) rest

unfoldable pub fsd_urn : String → String
fsd_urn profile_id =
    if starts_with profile_id "urn:" then profile_id else "urn:li:fsd_profile:" & profile_id

abbrev optional : String → String → List (String × String) → Bool → VoyagerCall
optional name path params normalized = record {
  name = name;
  path = path;
  params = params;
  required = false;
  normalized = normalized;
}

unfoldable pub profile_view : String → VoyagerCall
profile_view identifier =
    optional "profileView"
      (voyager_prefix & "/identity/profiles/" & seg identifier & "/profileView") [] false

unfoldable pub profile_core : String → VoyagerCall
profile_core identifier =
    optional "profile" (voyager_prefix & "/identity/profiles/" & seg identifier) [] false

unfoldable pub profile_contact_info : String → VoyagerCall
profile_contact_info identifier =
    optional "contactInfo"
      (voyager_prefix & "/identity/profiles/" & seg identifier & "/profileContactInfo") [] false

unfoldable pub profile_skills : String → ℕ → VoyagerCall
profile_skills identifier count =
    optional "skills" (voyager_prefix & "/identity/profiles/" & seg identifier & "/skills")
      (("count", decimal count) ∷ ("start", "0") ∷ []) false

unfoldable pub profile_network_info : String → VoyagerCall
profile_network_info identifier =
    optional "networkInfo"
      (voyager_prefix & "/identity/profiles/" & seg identifier & "/networkinfo") [] false

unfoldable pub dash_profile : String → VoyagerCall
dash_profile identifier = record {
  name = "dashProfile";
  path = voyager_prefix & "/identity/dash/profiles";
  params =
      ("q", "memberIdentity")
      ∷ ("memberIdentity", identifier)
      ∷ (
        "decorationId",
        dash_decoration & ".FullProfileWithEntities-" & decimal dash_decoration_version,
      )
      ∷ [];
  required = true;
  normalized = true;
}

unfoldable pub dash_profile_minimal : String → VoyagerCall
dash_profile_minimal identifier =
    optional "dashProfileMinimal" (voyager_prefix & "/identity/dash/profiles")
      (("q", "memberIdentity") ∷ ("memberIdentity", identifier) ∷ []) true

unfoldable pub graphql_profile : String → String → VoyagerCall
graphql_profile identifier query_id =
    optional "graphqlProfile" (voyager_prefix & "/graphql")
      (("includeWebMetadata", "true")
        ∷ ("variables", "(memberIdentity:" & seg identifier & ")")
        ∷ ("queryId", query_id)
        ∷ [])
      true

unfoldable pub dash_contact_info : String → VoyagerCall
dash_contact_info profile_id =
    optional "dashContactInfo"
      (voyager_prefix & "/identity/dash/profiles/" & seg (fsd_urn profile_id))
      (("decorationId", dash_decoration & ".WebProfileContactInfo-4") ∷ []) false
