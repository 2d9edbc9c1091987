-- ===== src/Urls/Identifiers.antt =====
-- Which identifiers are accepted, and that a plain one is read as itself.
use Prim.Native.Char.{Char, code}
use text.Mathlib.TextEquality.{Char-path}
use linkex.Shared.{
  ℕ, ◌<◌, String, ◌≡◌, refl, sym, Bool, true, false, not, ◌&&◌, ◌||◌, Option, some, inl, inr, List,
  [], ◌∷◌, ◌==◌, nat_eq, string_eq, leb, contains, Bool-cases, both_true, arith,
}
use linkex.Shared.Options.{map_option-some}
use linkex.Shared.Text.{
  is_char, is_nil, is_whitespace, all_chars, char_count, trim, strip_prefix, strip_if,
}
use linkex.Shared.Text.Trimming.{
  all_chars-take_until, trim_self, trim_matches_self, take_until_self,
}
use linkex.Endpoints.{utf8}
use linkex.Error.{ok}
use linkex.Parser.{Platform}
use linkex.Urls.{
  Url, locale_suffixes, has_text, is_vanity_char, is_vanity, is_valid_vanity, cut, checked_segment,
  clean_segment, identifier_of, candidate_of, ref_of, parse_profile_url,
}
use linkex.Urls.Decoding.{
  as_bytes, step, push, decode_bytes, char_at, char_of, checked, is_scalar, from_utf8_lossy,
  percent_decode,
}

-- letters, digits, a dot, an underscore and a dash
abbrev pub is_plain : Char → Bool
is_plain c =
    let n = code c in
    (leb b'A' n && leb n b'Z')
    || (leb b'a' n && leb n b'z')
    || (leb b'0' n && leb n b'9')
    || n == b'.'
    || n == b'_'
    || n == b'-'

-- What a plain character is not.
record IsTame (c : Char) : Type 0 where
  ascii : code c < 128
  percent : (code c == b'%') ≡ false
  solid : is_whitespace c ≡ false
  slash : is_char b'/' c ≡ false
  query : is_char b'?' c ≡ false
  hash : is_char b'#' c ≡ false
  vanity : is_vanity_char c ≡ true

is_plain-IsTame : (c : Char) → is_plain c ≡ true → IsTame c
unfolding is_whitespace
is_plain-IsTame c h = ground arith

all_chars-and :
    (p q : Char → Bool) (f : (c : Char) → p c ≡ true → q c ≡ true) (s : String)
    → all_chars p s ≡ true
    → all_chars q s ≡ true
unfolding all_chars
all_chars-and p q f String.[] h = refl
all_chars-and p q f (String.◌∷◌ c s) h =
    let (a, b) = both_true (p c) (all_chars p s) h in rw (f c a, all_chars-and p q f s b)

code-checked : (n : ℕ) (b : Bool) (f : _) → b ≡ true → code (checked n b f) ≡ n
code-checked n true f h = refl
code-checked n false f h = cc

char_of-code : (c : Char) → code c < 128 → char_of (code c) ≡ c
unfolding char_of
char_of-code c h =
    Char-path (char_of (code c)) c (code-checked (code c) (is_scalar (code c)) _ (ground arith))

step-push : (b : ℕ) (bs : List ℕ) → (b == b'%') ≡ false → step b bs ≡ push b
unfolding step
step-push b [] h = refl
step-push b (x ∷ []) h = refl
step-push b (x ∷ y ∷ bs) h = rw h

utf8-ascii : (n : ℕ) → n < 128 → utf8 n ≡ n ∷ []
unfolding utf8
utf8-ascii n h = ground arith

char_at-ascii : (n : ℕ) (bs : List ℕ) → n < 128 → char_at n bs ≡ (n, 0)
unfolding char_at
char_at-ascii n bs h = ground arith

-- The bytes of a plain text, decoded.
decode-plain :
    (s : String)
    → all_chars is_plain s ≡ true
    → (decode_bytes 0 (as_bytes s) ≡ some (as_bytes s)) × (from_utf8_lossy 0 (as_bytes s) ≡ s)
unfolding decode_bytes as_bytes from_utf8_lossy all_chars
decode-plain String.[] h = (refl, refl)
decode-plain (String.◌∷◌ c s) h =
    let (plain, rest) = both_true (is_plain c) (all_chars is_plain s) h in
    let t = is_plain-IsTame c plain in
    let (bytes, text) = decode-plain s rest in
    (
      rw (utf8-ascii (code c) t.ascii, step-push (code c) (as_bytes s) t.percent, bytes),
      rw (
        utf8-ascii (code c) t.ascii,
        char_at-ascii (code c) (as_bytes s) t.ascii,
        char_of-code c t.ascii,
        text,
      ),
    )

percent_decode-plain : (s : String) → all_chars is_plain s ≡ true → percent_decode s ≡ some s
unfolding percent_decode
percent_decode-plain s h = let (bytes, text) = decode-plain s h in rw (bytes, text)

-- A plain text has no mark that `cut` looks for.
module _ (s : String) (h : all_chars is_plain s ≡ true) where
  trim-plain : trim s ≡ s
  trim-plain = trim_self s (
      all_chars-and is_plain (λ c. not (is_whitespace c)) (λ c k. rw ((is_plain-IsTame c k).solid))
        s h)

  cut-plain : (platform : Platform) → cut platform s ≡ s
  cut-plain platform = rw (
    trim-plain,
    trim_matches_self (is_char b'/') s (
        all_chars-and is_plain (λ c. not (is_char b'/' c)) (λ c k. rw ((is_plain-IsTame c k).slash))
          s h),
    take_until_self (is_char b'?') s (
        all_chars-and is_plain (λ c. not (is_char b'?' c)) (λ c k. rw ((is_plain-IsTame c k).query))
          s h),
    take_until_self (is_char b'#') s (
        all_chars-and is_plain (λ c. not (is_char b'#' c)) (λ c k. rw ((is_plain-IsTame c k).hash))
          s h),
  )

  vanity-plain : all_chars is_vanity_char s ≡ true
  vanity-plain = all_chars-and is_plain is_vanity_char (λ c k. (is_plain-IsTame c k).vanity) s h

-- No slash, no link.
slash-free : (s : String) → all_chars is_plain s ≡ true → has_text "//" s ≡ false
unfolding has_text all_chars strip_prefix strip_if
slash-free String.[] h = refl
slash-free (String.◌∷◌ c s) h =
    let (plain, rest) = both_true (is_plain c) (all_chars is_plain s) h in
    rw ((is_plain-IsTame c plain).slash, slash-free s rest)

filled : (s : String) → leb 2 (char_count s) && leb (char_count s) 120 ≡ true → is_nil s ≡ false
unfolding char_count
filled String.[] h = cc
filled (String.◌∷◌ c s) h = refl

module _ (platform : Platform) (s : String) (h : all_chars is_plain s ≡ true)
    (long : leb 2 (char_count s) && leb (char_count s) 120 ≡ true)
    (local : contains (platform.to_lowercase s) locale_suffixes ≡ false) where
  is_vanity-plain : is_vanity s ≡ true
  unfolding is_vanity
  is_vanity-plain = rw (long, vanity-plain s h)

  checked_segment-plain : checked_segment platform s s ≡ ok s
  unfolding is_valid_vanity
  checked_segment-plain = rw (local, filled s long, is_vanity-plain)

  clean_segment-plain : clean_segment platform s ≡ some (ok s)
  unfolding clean_segment
  clean_segment-plain = rw (percent_decode-plain s h, cut-plain s h platform, checked_segment-plain)

  candidate_of-plain :
      has_text "linkedin.com" (platform.to_lowercase s) ≡ false → candidate_of platform s ≡ s
  candidate_of-plain host = rw host

  -- An identifier of 2 to 120 letters, digits, dots, underscores and dashes, which is not a locale
  -- and does not name linkedin.com, is read as itself, whatever the crate url does.
  pub parse_profile_url-plain :
      (parse : String → Option Url)
      → has_text "linkedin.com" (platform.to_lowercase s) ≡ false
      → parse_profile_url platform parse s ≡ some (ok (ref_of platform s s))
  unfolding parse_profile_url identifier_of
  parse_profile_url-plain parse host =
      rw (
        trim-plain s h,
        filled s long,
        candidate_of-plain host,
        slash-free s h,
        clean_segment-plain,
      )

-- What is accepted is not empty and has no question mark, no hash and no locale for a name, and the
-- segment or what it decodes to is of the characters and the length of a vanity name.
pub record IsAccepted (platform : Platform) (segment identifier : String) : Type 0 where
  pub filled : is_nil identifier ≡ false
  pub foreign : contains (platform.to_lowercase identifier) locale_suffixes ≡ false
  pub plausible : is_valid_vanity segment identifier ≡ true
  pub unmarked : all_chars (λ c. not (is_char b'#' c)) identifier ≡ true

checked_segment-ok :
    (platform : Platform) (segment found identifier : String)
    → checked_segment platform segment found ≡ ok identifier
    → all_chars (λ c. not (is_char b'#' c)) found ≡ true
    → IsAccepted platform segment identifier
checked_segment-ok platform segment found identifier h k =
    elim (Bool-cases (contains (platform.to_lowercase found) locale_suffixes)) [
      | inl e ↦ cc (rw e at h)
      | inr e ↦ elim (Bool-cases (is_nil found || not (is_valid_vanity segment found))) [
        | inl f ↦ cc (rw (e, f) at h)
        | inr f ↦
            let same : found ≡ identifier = cc (rw (e, f) at h) in
            rw (sym same) (record {
              filled = ground arith;
              foreign = e;
              plausible = ground arith;
              unmarked = k;
            })
      ]
    ]

pub clean_segment-IsAccepted :
    (platform : Platform) (segment identifier : String)
    → clean_segment platform segment ≡ some (ok identifier)
    → IsAccepted platform segment identifier
unfolding clean_segment
clean_segment-IsAccepted platform segment identifier h =
    let (decoded, _, made) = map_option-some _ (percent_decode segment) (ok identifier) h in
    checked_segment-ok platform segment (cut platform decoded) identifier made
      (all_chars-take_until (is_char b'#') _)
