-- ===== src/Shared/Text.antt =====
-- The string operations of Rust's standard library that the source uses, over code points.
pub mod Trimming
use Prim.Native.String.append
use linkex.Shared.{
  ℕ, zero, suc, ◌/◌, ◌%◌, ltb, String, ◌≡◌, Bool, true, false, ◌&&◌, ◌||◌, Option, none, some, List,
  [], ◌∷◌, leb, ◌==◌, nat_eq, string_eq, if◌then◌else◌,
}
use Prim.Native.Char.{Char, code}
use Prim.Native.String

-- `char::is_whitespace`: the White_Space property of Unicode.
unfoldable pub is_whitespace : Char → Bool
is_whitespace c =
    let n = code c in
    (leb 9 n && leb n 13)
    || n == 32
    || n == 0x85
    || n == 0xA0
    || n == 0x1680
    || (leb 0x2000 n && leb n 0x200A)
    || n == 0x2028
    || n == 0x2029
    || n == 0x202F
    || n == 0x205F
    || n == 0x3000

abbrev pub is_char : ℕ → Char → Bool
is_char n c = code c == n

abbrev pub is_nil : String → Bool
is_nil String.[] = true
is_nil (String.◌∷◌ _ _) = false

-- `trim_start_matches` and `trim_end_matches`, by a test on characters
unfoldable pub trim_start : (Char → Bool) → String → String
trim_start p String.[] = String.[]
trim_start p (String.◌∷◌ c s) = let rest = trim_start p s in if p c then rest else String.◌∷◌ c s

unfoldable pub trim_end : (Char → Bool) → String → String
trim_end p String.[] = String.[]
trim_end p (String.◌∷◌ c s) =
    let rest = trim_end p s in if p c && is_nil rest then String.[] else String.◌∷◌ c rest

unfoldable pub trim_matches : (Char → Bool) → String → String
unfolding trim_start trim_end
trim_matches p s = trim_end p (trim_start p s)

-- `trim`
unfoldable pub trim : String → String
unfolding trim_matches is_whitespace
trim s = trim_matches is_whitespace s

-- `split_once` at a character
abbrev pub prepend : Char → Option (String × String) → Option (String × String)
prepend c none = none
prepend c (some (a, b)) = some (String.◌∷◌ c a, b)

unfoldable pub split_once : ℕ → String → Option (String × String)
split_once n String.[] = none
split_once n (String.◌∷◌ c s) =
    let rest = split_once n s in if is_char n c then some (String.[], s) else prepend c rest

-- `split` at a character: one part more than there are separators
abbrev pub onto_first : Char → List String → List String
onto_first c [] = String.◌∷◌ c String.[] ∷ []
onto_first c (part ∷ parts) = String.◌∷◌ c part ∷ parts

unfoldable pub split : ℕ → String → List String
split n String.[] = String.[] ∷ []
split n (String.◌∷◌ c s) =
    let rest = split n s in if is_char n c then String.[] ∷ rest else onto_first c rest

-- Every character of a text passes a test.
unfoldable pub all_chars : (Char → Bool) → String → Bool
all_chars p String.[] = true
all_chars p (String.◌∷◌ c s) = p c && all_chars p s

-- `chars().count()`
unfoldable pub char_count : String → ℕ
char_count String.[] = 0
char_count (String.◌∷◌ c s) = suc (char_count s)

infixr 65 ◌&◌
abbrev pub ◌&◌ : String → String → String
s & t = String.◌++◌ s t

pub nil_append : (t : String) → "" & t ≡ t
nil_append t = λ i. append.nil t i

pub cons_append : (c : Char) (s t : String) → String.◌∷◌ c s & t ≡ String.◌∷◌ c (s & t)
cons_append c s t = λ i. append.cons c s t i

-- The character at a place, or else another one.
unfoldable pub char_or : Char → String → ℕ → Char
char_or d String.[] n = d
char_or d (String.◌∷◌ c s) zero = c
char_or d (String.◌∷◌ c s) (suc n) = char_or d s n

-- The decimal form of a number, by digits from the last one; a number has no more digits than
-- itself and one.
abbrev pub digit : ℕ → Char
digit n = char_or "9" "012345678" n

unfoldable pub decimal_onto : ℕ → ℕ → String → String
decimal_onto zero n rest = rest
decimal_onto (suc fuel) n rest =
    let more = decimal_onto fuel (n / 10) (String.◌∷◌ (digit (n % 10)) rest) in
    if ltb n 10 then String.◌∷◌ (digit n) rest else more

unfoldable pub decimal : ℕ → String
unfolding decimal_onto
decimal n = decimal_onto (suc n) n String.[]

-- `starts_with` a character
abbrev pub begins_with : ℕ → String → Bool
begins_with n String.[] = false
begins_with n (String.◌∷◌ c s) = is_char n c

-- `Some` of a text that is not empty
abbrev pub non_empty : String → Option String
non_empty String.[] = none
non_empty (String.◌∷◌ c s) = some (String.◌∷◌ c s)

-- `join`
abbrev joined_with : String → String → List String → String
joined_with separator part [] = part
joined_with separator part (next ∷ parts) = part & separator & joined_with separator next parts

abbrev pub join : String → List String → String
join separator [] = ""
join separator (part ∷ parts) = joined_with separator part parts

-- `strip_prefix`
unfoldable pub strip_if : Bool → Option String → Option String
strip_if true rest = rest
strip_if false rest = none

unfoldable pub strip_prefix : String → String → Option String
unfolding strip_if
strip_prefix String.[] s = some s
strip_prefix (String.◌∷◌ p ps) String.[] = none
strip_prefix (String.◌∷◌ p ps) (String.◌∷◌ c s) = strip_if (code c == code p) (strip_prefix ps s)

-- The part of a text before the first character that passes a test.
unfoldable pub take_until : (Char → Bool) → String → String
take_until p String.[] = String.[]
take_until p (String.◌∷◌ c s) =
    let rest = take_until p s in if p c then String.[] else String.◌∷◌ c rest

-- `str::ends_with`
unfoldable pub ends_with : String → String → Bool
ends_with String.[] t = String.[] == t
ends_with (String.◌∷◌ c s) t = String.◌∷◌ c s == t || ends_with s t
