-- ===== src/Parser/Texts.antt =====
-- src/parser/common.rs: texts, integers and URNs.
pub mod Clean
pub mod Urns
pub mod Numbers
use Prim.Native.Char.{Char, code}
use Prim.Native.String
use linkex.Shared.{
  ℕ, ◌+◌, ◌-◌, ◌*◌, ◌^◌, String, Bool, true, false, not, ◌&&◌, ◌||◌, Option, none, some, List, [],
  ◌∷◌, leb, ◌==◌, nat_eq, if◌then◌else◌,
}
use linkex.Shared.Int.{ℤ, pos, is_i64}
use linkex.Shared.Options.{◌>>=◌, find_map, unwrap_or, map_option}
use linkex.Shared.Text.{
  is_char, is_nil, begins_with, trim, non_empty, all_chars, split_once, strip_prefix, take_until,
  ◌&◌,
}
use linkex.Json
use linkex.Json.{Value, Fields, lookup, as_str, as_object, null}

-- `replace("\r\n", "\n")`
unfoldable pub crlf : String → String
crlf String.[] = String.[]
crlf (String.◌∷◌ c s) =
    let rest = crlf s in if is_char 13 c && begins_with 10 s then rest else String.◌∷◌ c rest

abbrev pub is_blank : Char → Bool
is_blank c = is_char 32 c || is_char 9 c

-- What the loop of `text` pushes. `in_space` is the source's; `started` says that `out` is not
-- empty.
unfoldable pub collapse : Bool → Bool → String → String
collapse in_space started String.[] = String.[]
collapse in_space started (String.◌∷◌ c s) =
    let rest = collapse (is_blank c) (started || not (is_blank c)) s in
    if is_blank c
    then (if not in_space && started then String.◌∷◌ " " rest else rest)
    else String.◌∷◌ c rest

unfoldable pub tidy : String → Option String
tidy s = non_empty (trim (collapse false false (crlf s)))

unfoldable pub text : Value → Option String
text value = as_str value >>= tidy

-- a number that an `i64` holds
unfoldable pub in_i64 : ℤ → Option ℤ
in_i64 n = if is_i64 n then some n else none

abbrev pub is_ascii_digit : Char → Bool
is_ascii_digit c = leb b'0' (code c) && leb (code c) b'9'

-- the number that digits are
unfoldable pub read_digits : ℕ → String → ℕ
read_digits n String.[] = n
read_digits n (String.◌∷◌ c s) = read_digits (n * 10 + (code c - b'0')) s

-- `parse::<i64>`, on digits
unfoldable pub parse_digits : String → Option ℤ
parse_digits s =
    if not (is_nil s) && all_chars is_ascii_digit s then in_i64 (pos (read_digits 0 s)) else none

unfoldable pub integer : Value → Option ℤ
integer (Json.integer n) = in_i64 n
integer (Json.string s) = parse_digits (trim s)
integer _ = none

-- `get(key).unwrap_or(&Value::Null)`
abbrev pub field_or_null : String → Fields → Value
field_or_null key m = unwrap_or null (lookup key m)

unfoldable pub text_of : Fields → String → Option String
text_of entity key = text (field_or_null key entity)

unfoldable pub first_text_of : Fields → List String → Option String
first_text_of entity keys = find_map (text_of entity) keys

-- `Value::get`
abbrev pub get_field : Value → String → Option Value
get_field value key = as_object value >>= lookup key

unfoldable pub first_text : Value → List String → Option String
first_text payload keys = find_map (λ key. text (unwrap_or null (get_field payload key))) keys

abbrev strip_paren : String → String
strip_paren id = unwrap_or id (strip_prefix "(" id)

abbrev pub ends_id : Char → Bool
ends_id c = is_char b',' c || is_char b')' c

unfoldable pub urn_id : String → Option String
urn_id urn = strip_prefix "urn:li:" urn >>= split_once b':' >>= λ parts.
    non_empty (trim (take_until ends_id (strip_paren parts.1)))

abbrev pub urn_of : String → String → String
urn_of entity id = "urn:li:" & entity & ":" & id

unfoldable pub normalise_urn : Value → String → Option String
normalise_urn urn entity = as_str urn >>= urn_id >>= λ id. some (urn_of entity id)
