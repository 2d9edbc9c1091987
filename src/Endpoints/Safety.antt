-- ===== src/Endpoints/Safety.antt =====
-- What an encoded path segment is made of.
use linkex.Shared.{
  ℕ, zero, suc, ◌/◌, ◌%◌, String, ◌≡◌, refl, inl, inr, Bool, true, List, [], ◌∷◌, arith, nat_eq,
  string_eq, Bool-cases,
}
use Prim.Native.Char.{Char, code}
use linkex.Shared.Text.{all_chars, char_or}
use linkex.Urls.Decoding.{as_bytes}
use linkex.Endpoints.Spelled.{is_safe, unreserved-is_safe, Spells, seg-Spells}
use linkex.Endpoints.{is_unreserved, utf8, nibble, percent_all, seg}

char_or-all :
    (p : Char → Bool) (d : Char) (s : String) (n : ℕ)
    → p d ≡ true
    → all_chars p s ≡ true
    → p (char_or d s n) ≡ true
unfolding char_or all_chars
char_or-all p d String.[] n h k = h
char_or-all p d (String.◌∷◌ c s) zero h k = ground arith
char_or-all p d (String.◌∷◌ c s) (suc n) h k = char_or-all p d s n h (ground arith)

nibble-is_safe : (n : ℕ) → is_safe (nibble n) ≡ true
unfolding nibble is_unreserved all_chars
nibble-is_safe n = char_or-all is_safe "F" "0123456789ABCDE" n refl refl

percent_all-safe :
    (bytes : List ℕ) (rest : String)
    → all_chars is_safe rest ≡ true
    → all_chars is_safe (percent_all bytes rest) ≡ true
unfolding percent_all all_chars is_unreserved
percent_all-safe [] rest h = h
percent_all-safe (byte ∷ bytes) rest h =
    rw (nibble-is_safe (byte / 16), nibble-is_safe (byte % 16), percent_all-safe bytes rest h)

all_safe : (s : String) → all_chars is_safe (seg s) ≡ true
unfolding seg all_chars
all_safe String.[] = refl
all_safe (String.◌∷◌ c s) = elim (Bool-cases (is_unreserved (code c))) [
  | inl e ↦ rw (e, unreserved-is_safe c e, all_safe s)
  | inr e ↦ rw e (percent_all-safe (utf8 (code c)) (seg s) (all_safe s))
]

-- Whatever the text, its encoding has only visible characters of ASCII, and none that parts a URL
-- into pieces: no slash, no question mark, no number sign. It spells the UTF-8 of the text: each
-- byte is such a character other than a percent sign, or two hexadecimal digits after one.
pub seg-safe : (s : String) → (all_chars is_safe (seg s) ≡ true) × Spells (seg s) (as_bytes s)
seg-safe s = (all_safe s, seg-Spells s)
