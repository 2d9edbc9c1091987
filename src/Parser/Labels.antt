-- ===== src/Parser/Labels.antt =====
-- src/parser/common.rs: element lists and the labels of enumerations.
use linkex.Shared.{
  ℕ, String, Bool, not, ◌||◌, Option, none, some, List, [], ◌∷◌, nat_eq, if◌then◌else◌,
}
use linkex.Shared.Options.{◌>>=◌, filter, filter_map}
use linkex.Shared.Text.{is_char, is_nil, all_chars, split, join, ◌&◌}
use linkex.Json
use linkex.Json.{Value, Fields, lookup, as_object, as_array, null}
use linkex.Parser.{Platform}
use linkex.Parser.Texts.{text, field_or_null}

-- the objects of a list of values
abbrev pub objects_in : Option (List Value) → List Fields
objects_in none = []
objects_in (some items) = filter_map as_object items

abbrev view_elements : Value → Value
view_elements (Json.object o) = field_or_null "elements" o
view_elements v = v

abbrev elements_in : Option Value → List Fields
elements_in none = []
elements_in (some v) = objects_in (as_array (view_elements v))

unfoldable pub elements : Fields → String → List Fields
elements payload key = elements_in (lookup key payload)

-- `replace('_', " ")`
unfoldable pub unscored : String → String
unscored String.[] = String.[]
unscored (String.◌∷◌ c s) =
    let rest = unscored s in if is_char b'_' c then String.◌∷◌ " " rest else String.◌∷◌ c rest

abbrev is_filled : String → Bool
is_filled s = not (is_nil s)

-- `contains` a character
unfoldable pub has_char : ℕ → String → Bool
has_char n s = not (all_chars (λ c. not (is_char n c)) s)

module _ (platform : Platform) where
  -- a text with its first character in upper case
  unfoldable pub capitalized : String → String
  capitalized String.[] = ""
  capitalized (String.◌∷◌ c s) = platform.to_uppercase (String.◌∷◌ c String.[]) & s

  abbrev sentence : List String → Option String
  sentence [] = none
  sentence (first ∷ words) =
      some (join " " (filter is_filled (capitalized first ∷ join " " words ∷ [])))

  abbrev upper_case : String → Bool
  upper_case raw = all_chars (λ c. not (platform.is_alphabetic c) || platform.is_uppercase c) raw

  abbrev label_of : String → Option String
  label_of raw =
      if upper_case raw || has_char b'_' raw
      then sentence (filter is_filled (split b' ' (platform.to_lowercase (unscored raw))))
      else some raw

  unfoldable pub enum_label : Value → Option String
  enum_label value = text value >>= label_of
