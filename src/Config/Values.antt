-- ===== src/Config/Values.antt =====
-- src/config.rs: the values that the environment gives. An `f64` is a number of billionths, or none;
-- how its text is read is a parameter, as are the crate url and the tables of the case conversions.
use linkex.Shared.{
  ℕ, ◌+◌, String, Bool, true, false, not, ◌&&◌, Option, none, some, List, [], ◌∷◌, ◌==◌, string_eq,
  nat_eq, leb, contains, if◌then◌else◌,
}
use linkex.Shared.Int.{ℤ, pos, sub_ℕ, max_i64}
use linkex.Shared.Options.{◌>>=◌, filter_option, filter_map, unwrap_or}
use linkex.Shared.Text.{is_nil, all_chars, split, trim, non_empty, strip_prefix, ◌&◌}
use linkex.Parser.Texts.{is_ascii_digit, read_digits}

-- `Result<A, ConfigError>`, or a panic
pub data Checked (A : Type 0) : Type 0 where
  ok : A → Checked A
  invalid : String → String → Checked A
  panics : Checked A

infixl 20 ◌>>=?◌
abbrev pub ◌>>=?◌ : {A B : Type 0} → Checked A → (A → Checked B) → Checked B
ok a >>=? f = f a
invalid name reason >>=? f = invalid name reason
panics >>=? f = panics

pub data Float : Type 0 where
  finite : ℤ → Float
  infinite nan : Float

-- What the crate url says of a proxy, and what `f64::from_str` says of a text.
pub record Readers : Type 0 where
  pub scheme : String → Option String
  pub parse_f64 : String → Option Float
  pub lower : String → String
  pub upper : String → String

-- `env::var`
abbrev pub Variables : Type 0
Variables = String → Option String

unfoldable pub nonempty_var : Variables → String → Option String
nonempty_var vars name = filter_option (λ v. not (is_nil (trim v))) (vars name)

unfoldable pub blank_to_none : Variables → String → Option String
blank_to_none vars name = filter_option (λ v. not (is_nil (trim v))) (vars name)

unfoldable pub split_csv : String → List String
split_csv value = filter_map (λ item. non_empty (trim item)) (split b',' value)

abbrev csv_of : Option String → List String
csv_of none = []
csv_of (some value) = split_csv value

unfoldable pub parse_csv : Variables → String → List String
parse_csv vars name = csv_of (nonempty_var vars name)

abbrev pub quoted : String → String → String
quoted value what = "'" & value & "' " & what

abbrev or_invalid : {A : Type 0} → String → String → Option A → Checked A
or_invalid name reason none = invalid name reason
or_invalid name reason (some a) = ok a

-- The digits of an unsigned integer, up to the greatest.
unfoldable pub digits_up_to : ℕ → String → Option ℕ
digits_up_to most s =
    if not (is_nil s) && all_chars is_ascii_digit s && leb (read_digits 0 s) most
    then some (read_digits 0 s)
    else none

-- `parse` of an unsigned integer, which may have a plus sign
unfoldable pub unsigned : ℕ → String → Option ℕ
unsigned most s = digits_up_to most (unwrap_or s (strip_prefix "+" s))

abbrev negative_or : String → Option String → Option ℤ
negative_or s (some digits) = digits_up_to (max_i64 + 1) digits >>= λ n. some (sub_ℕ 0 n)
negative_or s none = unsigned max_i64 s >>= λ n. some (pos n)

-- `parse::<i64>`
unfoldable pub signed : String → Option ℤ
signed s = negative_or s (strip_prefix "-" s)

abbrev pub max_u64 : ℕ
max_u64 = 18446744073709551615

unfoldable pub parse_i64 : String → String → Checked ℤ
parse_i64 name value = or_invalid name (quoted value "is not a number") (signed value)

unfoldable pub parse_u64 : String → String → Checked ℕ
parse_u64 name value = or_invalid name (quoted value "is not a number") (unsigned max_u64 value)

-- on a machine of 64 bits
unfoldable pub parse_usize : String → String → Checked ℕ
parse_usize name value = or_invalid name (quoted value "is not a number") (unsigned max_u64 value)

unfoldable pub parse_f64 : Readers → String → String → Checked Float
parse_f64 readers name value =
    or_invalid name (quoted value "is not a number") (readers.parse_f64 value)

unfoldable pub parse_bool : Readers → String → String → Checked Bool
parse_bool readers name value =
    let word = readers.lower (trim value) in
    if contains word ("true" ∷ "1" ∷ "yes" ∷ [])
    then ok true
    else if contains word ("false" ∷ "0" ∷ "no" ∷ [])
    then ok false
    else invalid name (quoted value "is not a boolean")

abbrev known_scheme : String → Option String → Checked String
known_scheme value none = invalid "PROXY_URL" (quoted value "is not a parseable URL")
known_scheme value (some scheme) =
    if contains scheme ("http" ∷ "https" ∷ "socks5" ∷ "socks5h" ∷ [])
    then ok value
    else invalid "PROXY_URL" ("unsupported scheme '" & scheme & "'")

unfoldable pub validate_proxy_url : Readers → String → Checked String
validate_proxy_url readers value = known_scheme value (readers.scheme value)

pub data Environment : Type 0 where
  development staging production : Environment

unfoldable pub parse_environment : Readers → String → Checked Environment
parse_environment readers value =
    let word = readers.lower value in
    if word == "development"
    then ok development
    else if word == "staging"
    then ok staging
    else if word == "production"
    then ok production
    else invalid "ENVIRONMENT" ("expected development|staging|production, got '" & word & "'")

pub data LogFormat : Type 0 where
  console json : LogFormat

unfoldable pub parse_log_format : Readers → String → Checked LogFormat
parse_log_format readers value =
    let word = readers.lower value in
    if word == "console"
    then ok console
    else if word == "json"
    then ok json
    else invalid "LOG_FORMAT" ("expected console|json, got '" & word & "'")
