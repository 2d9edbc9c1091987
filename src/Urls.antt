-- ===== src/Urls.antt =====
-- src/linkedin/url.rs: profile URLs. The crate url is a parameter, and so are the tables of the
-- case conversions. An outcome is `none` where the code panics.
pub mod Decoding
pub mod Hosts
pub mod Identifiers
pub mod Total
mod Examples
use Prim.Native.Char.{Char, code}
use Prim.Native.String
use linkex.Shared.{
  ℕ, zero, suc, ◌+◌, String, Bool, true, false, not, ◌&&◌, ◌||◌, Option, none, some, List, [], ◌∷◌,
  ◌==◌, string_eq, nat_eq, leb, contains, map, is_none, is_some, if◌then◌else◌,
}
use linkex.Shared.Options.{◌>>=◌, map_option, filter}
use linkex.Shared.Text.{
  is_char, is_nil, all_chars, char_count, ends_with, split, strip_prefix, take_until, trim,
  trim_matches, ◌&◌,
}
use linkex.Json
use linkex.Error.{AppError, Result, ok, err, invalid_profile_url}
use linkex.Parser.{Platform}
use linkex.Urls.Decoding.{percent_decode}

abbrev pub max_identifier_len : ℕ
max_identifier_len = 120

abbrev allowed_host : String
allowed_host = "linkedin.com"

abbrev pub locale_suffixes : List String
locale_suffixes =
    "en" ∷ "de" ∷ "fr" ∷ "es" ∷ "it" ∷ "pt" ∷ "nl" ∷ "ru" ∷ "ja" ∷ "zh" ∷ "ko" ∷ "ar" ∷ "hi" ∷ []

pub data IdentifierKind : Type 0 where
  vanity obfuscated : IdentifierKind

unfoldable pub as_str : IdentifierKind → String
as_str vanity = "vanity"
as_str obfuscated = "obfuscated"

pub record ProfileRef : Type 0 where
  pub identifier : String
  pub kind : IdentifierKind
  pub canonical_url : String
  pub raw_input : String

-- What the crate url says of a URL that it can parse.
pub record Url : Type 0 where
  pub username : String
  pub password : Option String
  pub host : Option String
  pub path : String

abbrev pub invalid {ℓ} : {A : Type ℓ} → String → Result A
invalid message = err (invalid_profile_url message Json.end)

-- `?` on an outcome that may have panicked
infixl 20 ◌>>?◌
abbrev pub ◌>>?◌ {ℓ} :
    {A B : Type ℓ} → Option (Result A) → (A → Option (Result B)) → Option (Result B)
none >>? f = none
some (ok a) >>? f = f a
some (err e) >>? f = some (err e)

-- `str::contains`
unfoldable pub has_text : String → String → Bool
has_text needle String.[] = is_nil needle
has_text needle (String.◌∷◌ c s) =
    is_some (strip_prefix needle (String.◌∷◌ c s)) || has_text needle s

abbrev pub is_vanity_char : Char → Bool
is_vanity_char c =
    let n = code c in
    (leb b'A' n && leb n b'Z')
    || (leb b'a' n && leb n b'z')
    || (leb b'0' n && leb n b'9')
    || n == b'%'
    || n == b'.'
    || n == b'_'
    || n == b'-'
    || (leb 0xC0 n && leb n 0x24F)
    || (leb 0x400 n && leb n 0x4FF)

-- the closure `ok`
unfoldable pub is_vanity : String → Bool
is_vanity s =
    leb 2 (char_count s) && leb (char_count s) max_identifier_len && all_chars is_vanity_char s

unfoldable pub is_valid_vanity : String → String → Bool
is_valid_vanity raw_segment decoded = is_vanity raw_segment || is_vanity decoded

abbrev is_id_char : Char → Bool
is_id_char c =
    let n = code c in
    (leb b'A' n && leb n b'Z')
    || (leb b'a' n && leb n b'z')
    || (leb b'0' n && leb n b'9')
    || n == b'_'
    || n == b'-'

-- What follows the prefix is in ASCII where it passes, so that its bytes are its characters; where
-- it is not, the last test fails whatever the count.
abbrev obfuscated_rest : Option String → Bool
obfuscated_rest none = false
obfuscated_rest (some rest) = leb 10 (char_count rest) && all_chars is_id_char rest

unfoldable pub is_obfuscated : String → Bool
is_obfuscated identifier = obfuscated_rest (strip_prefix "ACoA" identifier)

module _ (platform : Platform) where
  unfoldable pub cache_key : ProfileRef → String
  cache_key r = "profile:" & platform.to_lowercase r.identifier

  unfoldable pub is_allowed_host : String → Bool
  is_allowed_host host =
      platform.to_lowercase host == allowed_host
      || ends_with (platform.to_lowercase host) ".linkedin.com"

  -- The trimmed text, cut off at a question mark and at a hash.
  abbrev pub cut : String → String
  cut decoded =
      take_until (is_char b'#')
        (take_until (is_char b'?') (trim_matches (is_char b'/') (trim decoded)))

  abbrev pub checked_segment : String → String → Result String
  checked_segment segment identifier =
      if contains (platform.to_lowercase identifier) locale_suffixes
      then invalid "The URL is missing the profile identifier."
      else if is_nil identifier || not (is_valid_vanity segment identifier)
      then invalid "The profile identifier contains unsupported characters."
      else ok identifier

  unfoldable pub clean_segment : String → Option (Result String)
  clean_segment segment =
      map_option (λ decoded. checked_segment segment (cut decoded)) (percent_decode segment)

  -- What the first segment of a path without `in` says.
  abbrev pub other_path : String → Result String
  other_path first =
      if contains first ("pub" ∷ "profile" ∷ [])
      then invalid "Legacy /pub and /profile links are not supported. Use the /in/ URL."
      else if contains first
          ("company" ∷ "school" ∷ "showcase" ∷ "groups" ∷ "jobs" ∷ "posts" ∷ "feed" ∷ [])
      then invalid ("That is a LinkedIn " & first & " URL, not a member profile.")
      else invalid "The URL does not contain an /in/ profile path."

  abbrev pub first_or_missing : List String → Option (Result String)
  first_or_missing [] = some (invalid "The URL is missing the profile identifier.")
  first_or_missing (segment ∷ _) = clean_segment segment

  -- The segment after the first that is `in`, or else what the given outcome is.
  unfoldable pub after_in : Option (Result String) → List String → Option (Result String)
  after_in otherwise [] = otherwise
  after_in otherwise (segment ∷ segments) =
      let later = after_in otherwise segments in
      let here = first_or_missing segments in
      if platform.to_lowercase segment == "in" then here else later

  abbrev pub identifier_in : List String → Option (Result String)
  identifier_in [] = some (invalid "The URL does not point at a profile.")
  identifier_in (first ∷ segments) =
      after_in (some (other_path (platform.to_lowercase first))) (first ∷ segments)

  abbrev pub host_allowed : Option String → Bool
  host_allowed none = false
  host_allowed (some host) = is_allowed_host host

  -- the host is one of LinkedIn's, and there are no credentials
  abbrev pub is_trusted : Url → Bool
  is_trusted url = is_nil url.username && is_none url.password && host_allowed url.host

  abbrev pub from_url : Option Url → Option (Result String)
  from_url none = some (invalid "The supplied URL could not be parsed.")
  from_url (some url) =
      if is_trusted url
      then identifier_in (filter (λ s. not (is_nil s)) (split b'/' url.path))
      else some (invalid "Only linkedin.com profile URLs are supported.")

  unfoldable pub identifier_from_url : (String → Option Url) → String → Option (Result String)
  identifier_from_url parse candidate = from_url (parse candidate)

  -- a link without a scheme gets one
  abbrev pub candidate_of : String → String
  candidate_of raw =
      if has_text "linkedin.com" (platform.to_lowercase raw) && not (has_text "//" raw)
      then "https://" & raw
      else raw

  unfoldable pub identifier_of : (String → Option Url) → String → Option (Result String)
  identifier_of parse candidate =
      if has_text "//" candidate
      then identifier_from_url parse candidate
      else clean_segment candidate

  abbrev pub ref_of : String → String → ProfileRef
  ref_of raw identifier = record {
    identifier = identifier;
    kind = if is_obfuscated identifier then obfuscated else vanity;
    canonical_url = "https://www.linkedin.com/in/" & identifier & "/";
    raw_input = raw;
  }

  unfoldable pub parse_profile_url : (String → Option Url) → String → Option (Result ProfileRef)
  parse_profile_url parse value =
      let raw = trim value in
      if is_nil raw
      then some (invalid "A LinkedIn profile URL is required.")
      else identifier_of parse (candidate_of raw) >>? λ identifier.
          some (ok (ref_of raw identifier))
