-- ===== src/Urls/Decoding.antt =====
-- src/linkedin/url.rs: `percent_decode`, over the bytes of a text.
use Prim.Native.Char.{Char, char, code, IsScalar}
use linkex.Shared.{
  ℕ, zero, suc, ◌+◌, ◌-◌, ◌*◌, String, ◌≡◌, refl, Bool, true, false, ◌&&◌, ◌||◌, Option, none, some,
  List, [], ◌∷◌, ◌++◌, ltb, leb, ◌==◌, nat_eq, arith, if◌then◌else◌,
}
use linkex.Shared.Options.{◌>>=◌, map_option}
use linkex.Endpoints.{utf8}

-- `as_bytes`
unfoldable pub as_bytes : String → List ℕ
as_bytes String.[] = []
as_bytes (String.◌∷◌ c s) = utf8 (code c) ++ as_bytes s

-- the value of a hexadecimal digit
unfoldable pub hex_digit : ℕ → Option ℕ
hex_digit b =
    if leb b'0' b && leb b b'9'
    then some (b - b'0')
    else if leb b'a' b && leb b b'f'
    then some (b - b'a' + 10)
    else if leb b'A' b && leb b b'F'
    then some (b - b'A' + 10)
    else none

-- `u8::from_str_radix` of two bytes, which takes a plus sign in front of a digit
unfoldable pub from_hex : ℕ → ℕ → Option ℕ
from_hex x y =
    if x == b'+' then hex_digit y else hex_digit x >>= λ h. hex_digit y >>= λ l. some (h * 16 + l)

abbrev pub is_continuation : ℕ → Bool
is_continuation b = leb 0x80 b && ltb b 0xC0

-- The text is sliced inside a character.
abbrev pub starts_inside : List ℕ → Bool
starts_inside [] = false
starts_inside (b ∷ _) = is_continuation b

-- What one round of the loop does.
pub data Step : Type 0 where
  push : ℕ → Step
  decoded : ℕ → Step
  panics : Step

abbrev pub escape_of : ℕ → Option ℕ → Step
escape_of b none = push b
escape_of b (some n) = decoded n

unfoldable pub step : ℕ → List ℕ → Step
step b (x ∷ y ∷ rest) =
    if b == b'%'
    then (if starts_inside rest then panics else escape_of b (from_hex x y))
    else push b
step b _ = push b

abbrev pub skipped : Step → ℕ
skipped (decoded _) = 2
skipped _ = 0

abbrev pub pushed : Step → Option (List ℕ) → Option (List ℕ)
pushed (push b) rest = map_option (λ bs. b ∷ bs) rest
pushed (decoded n) rest = map_option (λ bs. n ∷ bs) rest
pushed panics rest = none

-- The loop, with a number of bytes to skip; `none` where a slice panics.
unfoldable pub decode_bytes : ℕ → List ℕ → Option (List ℕ)
decode_bytes n [] = some []
decode_bytes (suc n) (b ∷ bs) = decode_bytes n bs
decode_bytes zero (b ∷ bs) =
    let s = step b bs in let rest = decode_bytes (skipped s) bs in pushed s rest

-- The bytes that may follow the first byte of a character at once, and how many do in all.
abbrev second_range : ℕ → ℕ × ℕ
second_range b =
    if b == 0xE0
    then (0xA0, 0xBF)
    else if b == 0xED
    then (0x80, 0x9F)
    else if b == 0xF0
    then (0x90, 0xBF)
    else if b == 0xF4
    then (0x80, 0x8F)
    else (0x80, 0xBF)

abbrev following : ℕ → ℕ
following b =
    if leb 0xC2 b && leb b 0xDF
    then 1
    else if leb 0xE0 b && leb b 0xEF
    then 2
    else if leb 0xF0 b && leb b 0xF4
    then 3
    else 0

abbrev pub replacement : ℕ
replacement = 0xFFFD

-- The bytes of a character after its second: the character, or the replacement for what was read.
unfoldable pub tail_of : ℕ → ℕ → ℕ → List ℕ → ℕ × ℕ
tail_of zero n used bs = (n, used)
tail_of (suc left) n used [] = (replacement, used)
tail_of (suc left) n used (b ∷ bs) =
    let rest = tail_of left (n * 64 + (b - 0x80)) (used + 1) bs in
    if is_continuation b then rest else (replacement, used)

abbrev lead_bits : ℕ → ℕ
lead_bits b = if ltb b 0xE0 then b - 0xC0 else if ltb b 0xF0 then b - 0xE0 else b - 0xF0

abbrev is_in : ℕ → ℕ × ℕ → Bool
is_in b range = leb range.0 b && leb b range.1

abbrev multibyte : ℕ → List ℕ → ℕ × ℕ
multibyte b [] = (replacement, 0)
multibyte b (x ∷ xs) =
    if is_in x (second_range b)
    then tail_of (following b - 1) (lead_bits b * 64 + (x - 0x80)) 1 xs
    else (replacement, 0)

-- The character that begins at a byte, and how many bytes after that one it takes.
unfoldable pub char_at : ℕ → List ℕ → ℕ × ℕ
char_at b bs =
    if ltb b 0x80 then (b, 0) else if following b == 0 then (replacement, 0) else multibyte b bs

abbrev pub is_scalar : ℕ → Bool
is_scalar n = ltb n 55296 || (ltb 57343 n && ltb n 1114112)

pub is_scalar-IsScalar : (n : ℕ) → is_scalar n ≡ true → IsScalar n
is_scalar-IsScalar n h = ground arith

abbrev pub checked : (n : ℕ) (b : Bool) → (b ≡ true → IsScalar n) → Char
checked n true f = char n (f refl)
checked n false f = char 0xFFFD tt

-- The character of a number, or the replacement where there is none.
unfoldable pub char_of : ℕ → Char
char_of n = checked n (is_scalar n) (is_scalar-IsScalar n)

-- `String::from_utf8_lossy`, with a number of bytes to skip
unfoldable pub from_utf8_lossy : ℕ → List ℕ → String
from_utf8_lossy n [] = String.[]
from_utf8_lossy (suc n) (b ∷ bs) = from_utf8_lossy n bs
from_utf8_lossy zero (b ∷ bs) =
    let c = char_at b bs in String.◌∷◌ (char_of c.0) (from_utf8_lossy c.1 bs)

-- `none` where a slice panics
unfoldable pub percent_decode : String → Option String
percent_decode value = map_option (from_utf8_lossy 0) (decode_bytes 0 (as_bytes value))
