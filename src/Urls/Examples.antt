-- ===== src/Urls/Examples.antt =====
-- The unit tests of src/linkedin/url.rs, on the letters of ASCII, and the theorems at such links.
use linkex.Shared.{
  String, ◌≡◌, refl, sym, Bool, true, false, not, Option, none, some, List, [], ◌∷◌, ◌==◌,
  string_eq, if◌then◌else◌, ◌&&◌, contains,
}
use linkex.Shared.Options.{map_option}
use linkex.Shared.Text.{trim, all_chars}
use linkex.Error.{Result, ok, err}
use linkex.Parser.Samples.{ascii}
use linkex.Urls.{
  Url, ProfileRef, IdentifierKind, vanity, obfuscated, parse_profile_url, cache_key, ref_of,
  candidate_of, has_text,
}
use linkex.Urls.Decoding.{percent_decode}
use linkex.Urls.Hosts.{IsLinkedin, parse_profile_url-trusted}
use linkex.Urls.Total.{is_ascii, parse_profile_url-total}
use linkex.Urls.Identifiers.{parse_profile_url-plain}

abbrev at_path : String → String → Option Url
at_path host path = some (record { username = ""; password = none; host = some host; path = path })

-- what the crate url makes of some links
abbrev parse : String → Option Url
parse s =
    if s == "https://www.linkedin.com/in/ada/?trk=feed"
    then at_path "www.linkedin.com" "/in/ada/"
    else if s == "https://linkedin.com/in/ada"
    then at_path "linkedin.com" "/in/ada"
    else if s == "https://www.linkedin.com/in/alias%20gates/"
    then at_path "www.linkedin.com" "/in/alias%20gates/"
    else if s == "https://www.linkedin.com/company/acme"
    then at_path "www.linkedin.com" "/company/acme"
    else if s == "https://evillinkedin.com/in/ada"
    then at_path "evillinkedin.com" "/in/ada"
    else if s == "https://linkedin.com/in/a%2F..%2Fb"
    then at_path "linkedin.com" "/in/a%2F..%2Fb"
    else none

abbrev identifier_of_result : Result ProfileRef → Option String
identifier_of_result (ok r) = some r.identifier
identifier_of_result (err e) = none

-- the identifier of a link, or that it is refused
read_link : String → Option (Option String)
unfolding parse_profile_url trim has_text linkex.Urls.identifier_of linkex.Urls.identifier_from_url
    linkex.Urls.is_allowed_host linkex.Urls.after_in linkex.Urls.clean_segment
    linkex.Urls.is_valid_vanity linkex.Urls.is_vanity linkex.Urls.is_obfuscated percent_decode
    linkex.Urls.Decoding.decode_bytes linkex.Urls.Decoding.as_bytes linkex.Urls.Decoding.step
    linkex.Urls.Decoding.from_hex linkex.Urls.Decoding.hex_digit
    linkex.Urls.Decoding.from_utf8_lossy linkex.Urls.Decoding.char_at linkex.Urls.Decoding.char_of
    linkex.Urls.Decoding.tail_of linkex.Endpoints.utf8 linkex.Shared.Text.strip_prefix
    linkex.Shared.Text.char_or linkex.Shared.Text.char_count linkex.Shared.Text.all_chars
    linkex.Shared.Text.ends_with linkex.Shared.Text.split linkex.Shared.Text.take_until
    linkex.Shared.Text.is_whitespace linkex.Shared.Text.trim_end linkex.Shared.Text.trim_start
    linkex.Shared.Text.trim_matches linkex.Shared.Text.strip_if
read_link s = map_option identifier_of_result (parse_profile_url ascii parse s)

link_tracked : read_link " https://www.linkedin.com/in/ada/?trk=feed " ≡ some (some "ada")
unfolding read_link
link_tracked = refl

link_bare_host : read_link "linkedin.com/in/ada" ≡ some (some "ada")
unfolding read_link
link_bare_host = refl

link_vanity : read_link "WilliamGates" ≡ some (some "WilliamGates")
unfolding read_link
link_vanity = refl

link_spaced : read_link "https://www.linkedin.com/in/alias%20gates/" ≡ some (some "alias gates")
unfolding read_link
link_spaced = refl

link_company : read_link "https://www.linkedin.com/company/acme" ≡ some none
unfolding read_link
link_company = refl

link_foreign : read_link "https://evillinkedin.com/in/ada" ≡ some none
unfolding read_link
link_foreign = refl

link_blank : read_link "  " ≡ some none
unfolding read_link
link_blank = refl

link_locale : read_link "en" ≡ some none
unfolding read_link
link_locale = refl

-- The raw segment passes, so that the identifier has the slashes that it encodes.
link_traversal : read_link "https://linkedin.com/in/a%2F..%2Fb" ≡ some (some "a/../b")
unfolding read_link
link_traversal = refl

-- The slice ends inside a character.
link_panics : read_link "%aé" ≡ none
unfolding read_link
link_panics = refl

-- A plus sign is taken for a digit.
decode_plus : percent_decode "x%+fy" ≡ some "x\u{f}y"
unfolding percent_decode linkex.Urls.Decoding.decode_bytes linkex.Urls.Decoding.as_bytes
    linkex.Endpoints.utf8 linkex.Urls.Decoding.step linkex.Urls.Decoding.from_hex
    linkex.Urls.Decoding.hex_digit linkex.Urls.Decoding.from_utf8_lossy linkex.Urls.Decoding.char_at
    linkex.Urls.Decoding.char_of
decode_plus = refl

abbrev obfuscated_ref : String → ProfileRef
obfuscated_ref s = record { identifier = s; kind = obfuscated; canonical_url = ""; raw_input = s }

-- Two members whose identifiers differ in case share a key.
keys_collide :
    cache_key ascii (obfuscated_ref "ACoAABcdefghij")
    ≡ cache_key ascii (obfuscated_ref "ACoAABCDEFGHIJ")
unfolding cache_key linkex.Shared.Text.char_or
keys_collide = refl

abbrev linkedin : Url
linkedin = record {
  username = "";
  password = none;
  host = some "www.linkedin.com";
  path = "/in/ada/";
}

parse_profile_url-trusted_example :
    (url : Url) × (parse (candidate_of ascii (trim "https://www.linkedin.com/in/ada/?trk=feed"))
      ≡ some url)
    × IsLinkedin ascii url
unfolding parse_profile_url trim has_text linkex.Urls.identifier_of linkex.Urls.identifier_from_url
    linkex.Urls.is_allowed_host linkex.Urls.after_in linkex.Urls.clean_segment
    linkex.Urls.is_valid_vanity linkex.Urls.is_vanity linkex.Urls.is_obfuscated percent_decode
    linkex.Urls.Decoding.decode_bytes linkex.Urls.Decoding.as_bytes linkex.Urls.Decoding.step
    linkex.Urls.Decoding.from_hex linkex.Urls.Decoding.hex_digit
    linkex.Urls.Decoding.from_utf8_lossy linkex.Urls.Decoding.char_at linkex.Urls.Decoding.char_of
    linkex.Urls.Decoding.tail_of linkex.Endpoints.utf8 linkex.Shared.Text.strip_prefix
    linkex.Shared.Text.char_or linkex.Shared.Text.char_count linkex.Shared.Text.all_chars
    linkex.Shared.Text.ends_with linkex.Shared.Text.split linkex.Shared.Text.take_until
    linkex.Shared.Text.is_whitespace linkex.Shared.Text.trim_end linkex.Shared.Text.trim_start
    linkex.Shared.Text.trim_matches linkex.Shared.Text.strip_if
parse_profile_url-trusted_example =
    parse_profile_url-trusted ascii parse "https://www.linkedin.com/in/ada/?trk=feed"
      (ref_of ascii "https://www.linkedin.com/in/ada/?trk=feed" "ada") refl refl

parse_profile_url-plain_example :
    parse_profile_url ascii parse "ada-lovelace.1"
    ≡ some (ok (ref_of ascii "ada-lovelace.1" "ada-lovelace.1"))
unfolding linkex.Shared.Text.all_chars linkex.Shared.Text.char_count has_text
    linkex.Shared.Text.strip_prefix
parse_profile_url-plain_example =
    parse_profile_url-plain ascii "ada-lovelace.1" refl refl refl parse refl

abbrev found : String → Option Url
found s = some linkedin

found-ascii : (u : String) (url : Url) → found u ≡ some url → all_chars is_ascii url.path ≡ true
unfolding all_chars
found-ascii u url h = let same : linkedin ≡ url = cc in rw (sym same)

parse_profile_url-total_example :
    (r : Result ProfileRef) × (parse_profile_url ascii found "https://linkedin.com/in/%41da"
      ≡ some r)
unfolding all_chars
parse_profile_url-total_example =
    parse_profile_url-total ascii found found-ascii "https://linkedin.com/in/%41da" refl
