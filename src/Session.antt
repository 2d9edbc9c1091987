-- ===== src/Session.antt =====
-- src/linkedin/session.rs: the cookies of a LinkedIn session, and what is kept of them on disk.
-- A `HashMap` is an association list; times are numbers of seconds, in billionths.
pub mod Tombstone
pub mod Merge
pub mod Header
pub mod Persistence
mod Examples
use linkex.Shared.{
  ℕ, suc, ◌+◌, ◌-◌, ◌*◌, ◌≤◌, String, Bool, true, false, not, ◌&&◌, Option, none, some, List, [],
  ◌∷◌, arith, ltb, ◌==◌, nat_eq, string_eq, if◌then◌else◌, is_some, get, insert, remove,
  contains_key,
}
use Prim.Native.Char.{Char}
use linkex.Shared.Int.{
  ℤ, pos, negsuc, pos_part, neg_part, sub_ℕ, ◌+ℤ◌, ◌-ℤ◌, ◌≤ℤ◌, ltb_ℤ, leb_ℤ, int_eq, +ℤ_parts,
  -ℤ_parts, eq_of_parts, int_laws,
}
use text.Mathlib.Text.{starts_with}
use linkex.Shared.Text.{trim, trim_matches, is_char, split, split_once, is_nil, ◌&◌}
use linkex.Json.{
  Value, Fields, null, string, object, float, integer, field, end, lookup, as_str, as_object,
}

abbrev pub Cookies : Type 0
Cookies = List (String × String)

abbrev pub li_at_name : String
li_at_name = "li_at"

abbrev pub jsessionid_name : String
jsessionid_name = "JSESSIONID"

pub data SessionSource : Type 0 where
  environment password_login restored : SessionSource

unfoldable pub as_str_source : SessionSource → String
as_str_source environment = "environment"
as_str_source password_login = "password-login"
as_str_source restored = "restored"

pub record LinkedInSession : Type 0 where
  pub cookies : Cookies
  pub source : SessionSource
  pub created_at : ℕ
  pub last_validated_at : Option ℕ
  pub member_urn : Option String

-- b'"' in the source
abbrev pub is_quote : Char → Bool
is_quote = is_char b'"'

unfoldable pub is_tombstone : String → Bool
unfolding trim trim_matches
is_tombstone value = trim_matches is_quote (trim value) == "delete me"

abbrev pub li_at : LinkedInSession → Option String
li_at s = get li_at_name s.cookies

abbrev pub jsessionid : LinkedInSession → Option String
jsessionid s = get jsessionid_name s.cookies

abbrev pub map_option {ℓ κ} : {A : Type ℓ} {B : Type κ} → (A → B) → Option A → Option B
map_option f none = none
map_option f (some a) = some (f a)

unfoldable pub csrf_token : LinkedInSession → Option String
csrf_token s = map_option (trim_matches is_quote) (jsessionid s)

-- `is_some_and(is_tombstone)`
abbrev pub is_dead : Option String → Bool
is_dead none = false
is_dead (some value) = is_tombstone value

unfoldable pub is_usable : LinkedInSession → Bool
unfolding csrf_token
is_usable s = is_some (li_at s) && is_some (csrf_token s) && not (is_dead (li_at s))

unfoldable pub signed_out : LinkedInSession → Bool
signed_out s = is_dead (li_at s)

-- One round of `merge_cookies`.
unfoldable pub merge_cookie : String → String → Cookies → Cookies
merge_cookie name value cookies =
    if is_nil value
    then cookies
    else if is_tombstone value
    then (if name == li_at_name
        then insert li_at_name value (remove name cookies)
        else remove name cookies)
    else insert name value cookies

unfoldable pub merge_all : Cookies → Cookies → Cookies
merge_all [] cookies = cookies
merge_all ((name, value) ∷ more) cookies = merge_all more (merge_cookie name value cookies)

unfoldable pub merge_cookies : Cookies → LinkedInSession → LinkedInSession
merge_cookies fresh s = record s { cookies = merge_all fresh s.cookies }

-- One chunk of a `Cookie:` header.
unfoldable pub add_pair : Option (String × String) → Cookies → Cookies
add_pair none cookies = cookies
add_pair (some (name, value)) cookies =
    if is_nil (trim name) then cookies else insert (trim name) (trim value) cookies

unfoldable pub header_chunk : String → Cookies → Cookies
header_chunk chunk cookies = add_pair (split_once b'=' chunk) cookies

unfoldable pub header_chunks : List String → Cookies → Cookies
header_chunks [] cookies = cookies
header_chunks (chunk ∷ chunks) cookies = header_chunks chunks (header_chunk chunk cookies)

unfoldable pub parse_cookie_header : String → Cookies
parse_cookie_header header = header_chunks (split b';' header) []

unfoldable pub quote_cookie : String → String
unfolding trim
quote_cookie value = if starts_with (trim value) "\"" then trim value else "\"" & trim value & "\""

-- The payload that `save_sync` writes and `load_sync` reads.
cookie_fields : Cookies → Fields
cookie_fields [] = end
cookie_fields ((name, value) ∷ cookies) = field name (string value) (cookie_fields cookies)

-- A time that is converted to seconds as an `f64` loses what is beyond its precision: `nearest`
-- gives, of a number of billionths, the one that is left.
seconds_value : (ℕ → ℕ) → Option ℕ → Value
seconds_value nearest none = null
seconds_value nearest (some t) = float (pos (nearest t))

text_value : Option String → Value
text_value none = null
text_value (some s) = string s

unfoldable pub save_payload : (ℕ → ℕ) → LinkedInSession → Value
unfolding cookie_fields seconds_value text_value as_str_source
save_payload nearest s = object (
    field "cookies" (object (cookie_fields s.cookies)) (
      field "source" (string (as_str_source s.source)) (
        field "created_at" (float (pos (nearest s.created_at))) (
          field "last_validated_at" (seconds_value nearest s.last_validated_at)
            (field "member_urn" (text_value s.member_urn) end)))))

-- `Value::as_f64`, cut off at zero as `epoch_to_system_time` does
unfoldable pub epoch_of : (ℕ → ℕ) → Value → Option ℕ
epoch_of nearest (float n) = some (pos_part n)
epoch_of nearest (integer n) = some (nearest (pos_part n * 1_000_000_000))
epoch_of nearest _ = none

-- The `SystemTime` of a platform with 64 bits ends 2 ^ 63 seconds after the epoch; past it, and for
-- a duration of 2 ^ 64 seconds, `epoch_to_system_time` panics.
abbrev pub is_time : Option ℕ → Bool
is_time none = true
is_time (some t) = ltb t (9223372036854775808 * 1_000_000_000)

-- What the loading of a payload comes to; a malformed one is removed.
pub data Loaded : Type 0 where
  loaded : LinkedInSession → Loaded
  malformed : Loaded
  panics : Loaded

abbrev bind {ℓ κ} : {A : Type ℓ} {B : Type κ} → Option A → (A → Option B) → Option B
bind none f = none
bind (some a) f = f a

-- The entries of the cookie object that are texts.
load_cookies : Fields → Cookies
load_cookies end = []
load_cookies (field name (string value) fields) = (name, value) ∷ load_cookies fields
load_cookies (field name _ fields) = load_cookies fields

abbrev pub member : String → Value → Option Value
member key v = bind (as_object v) (lookup key)

cookies_of : Option Fields → Cookies
cookies_of none = []
cookies_of (some fields) = load_cookies fields

abbrev or_now : ℕ → Option ℕ → ℕ
or_now now none = now
or_now now (some t) = t

-- A payload without an auth cookie is malformed.
unfoldable pub load_payload : (ℕ → ℕ) → ℕ → Value → Loaded
unfolding load_cookies cookies_of epoch_of
load_payload nearest now payload =
    let cookies = cookies_of (bind (member "cookies" payload) as_object) in
    let created = bind (member "created_at" payload) (epoch_of nearest) in
    let validated = bind (member "last_validated_at" payload) (epoch_of nearest) in
    if not (contains_key li_at_name cookies)
    then malformed
    else if is_time created && is_time validated
    then loaded (record {
      cookies = cookies;
      source = restored;
      created_at = or_now now created;
      last_validated_at = validated;
      member_urn = bind (member "member_urn" payload) as_str;
    })
    else panics
