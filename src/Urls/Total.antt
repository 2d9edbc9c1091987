-- ===== src/Urls/Total.antt =====
-- Which links are always read to an outcome, so that no slice of `percent_decode` panics.
use Prim.Native.Char.{Char, code}
use linkex.Shared.{
  ℕ, zero, suc, String, ◌≡◌, refl, Bool, true, false, not, ◌&&◌, Option, none, some, inl, inr, List,
  [], ◌∷◌, ltb, ◌==◌, nat_eq, string_eq, is_some, arith, Bool-cases, both_true,
}
use linkex.Shared.Options.{map_option, filter}
use linkex.Shared.Text.{
  all_chars, trim, split, is_char, is_nil, onto_first, ◌&◌, nil_append, cons_append,
}
use linkex.Shared.Text.Trimming.{all_chars-trim}
use linkex.Error.{Result, ok, err}
use linkex.Parser.{Platform}
use linkex.Endpoints.{utf8}
use linkex.Urls.Decoding.{
  Step, push, decoded, panics, step, skipped, pushed, from_hex, starts_inside, as_bytes,
  decode_bytes, percent_decode, escape_of,
}
use linkex.Urls.{
  Url, ProfileRef, ◌>>?◌, has_text, is_trusted, identifier_from_url, identifier_of, identifier_in,
  after_in, clean_segment, first_or_missing, other_path, from_url, candidate_of, ref_of,
  parse_profile_url,
}

abbrev pub is_ascii : Char → Bool
is_ascii c = ltb (code c) 128

abbrev all_small : List ℕ → Bool
all_small [] = true
all_small (b ∷ bs) = ltb b 128 && all_small bs

as_bytes-all_small : (s : String) → all_chars is_ascii s ≡ true → all_small (as_bytes s) ≡ true
unfolding as_bytes all_chars utf8
as_bytes-all_small String.[] h = refl
as_bytes-all_small (String.◌∷◌ c s) h =
    let (a, b) = both_true (is_ascii c) (all_chars is_ascii s) h in
    rw (a, as_bytes-all_small s b, a)

abbrev is_panic : Step → Bool
is_panic panics = true
is_panic _ = false

starts_inside-small : (bs : List ℕ) → all_small bs ≡ true → starts_inside bs ≡ false
starts_inside-small [] h = refl
starts_inside-small (b ∷ bs) h = let (a, _) = both_true (ltb b 128) (all_small bs) h in ground arith

escape_of-safe : (b : ℕ) (o : Option ℕ) → is_panic (escape_of b o) ≡ false
escape_of-safe b none = refl
escape_of-safe b (some n) = refl

step-safe : (b : ℕ) (bs : List ℕ) → all_small bs ≡ true → is_panic (step b bs) ≡ false
unfolding step
step-safe b [] h = refl
step-safe b (x ∷ []) h = refl
step-safe b (x ∷ y ∷ rest) h =
    let (_, k) = both_true (ltb x 128) (all_small (y ∷ rest)) h in
    let (_, small) = both_true (ltb y 128) (all_small rest) k in
    elim (Bool-cases (b == b'%')) [
      | inl e ↦ rw (e, starts_inside-small rest small) (escape_of-safe b (from_hex x y))
      | inr e ↦ rw e
    ]

pushed-some :
    (s : Step) (rest : Option (List ℕ))
    → is_panic s ≡ false
    → is_some rest ≡ true
    → is_some (pushed s rest) ≡ true
pushed-some (push b) (some bs) h k = refl
pushed-some (decoded n) (some bs) h k = refl
pushed-some panics rest h k = cc
pushed-some (push b) none h k = cc
pushed-some (decoded n) none h k = cc

decode_bytes-some : (n : ℕ) (bs : List ℕ) → all_small bs ≡ true → is_some (decode_bytes n bs) ≡ true
unfolding decode_bytes
decode_bytes-some zero [] h = refl
decode_bytes-some (suc n) [] h = refl
decode_bytes-some (suc n) (b ∷ bs) h =
    let (_, k) = both_true (ltb b 128) (all_small bs) h in decode_bytes-some n bs k
decode_bytes-some zero (b ∷ bs) h =
    let (_, k) = both_true (ltb b 128) (all_small bs) h in
    pushed-some (step b bs) (decode_bytes (skipped (step b bs)) bs) (step-safe b bs k)
      (decode_bytes-some (skipped (step b bs)) bs k)

map_option-is_some :
    {A B : Type 0} (f : A → B) (o : Option A) → is_some o ≡ true → is_some (map_option f o) ≡ true
map_option-is_some f none h = cc
map_option-is_some f (some a) h = refl

percent_decode-some : (s : String) → all_chars is_ascii s ≡ true → is_some (percent_decode s) ≡ true
unfolding percent_decode
percent_decode-some s h =
    map_option-is_some _ (decode_bytes 0 (as_bytes s))
      (decode_bytes-some 0 (as_bytes s) (as_bytes-all_small s h))

abbrev all_ascii : List String → Bool
all_ascii [] = true
all_ascii (s ∷ ss) = all_chars is_ascii s && all_ascii ss

onto_first-all_ascii :
    (c : Char) (ss : List String)
    → is_ascii c ≡ true
    → all_ascii ss ≡ true
    → all_ascii (onto_first c ss) ≡ true
unfolding all_chars
onto_first-all_ascii c [] a h = rw a
onto_first-all_ascii c (s ∷ ss) a h = rw a h

split-all_ascii : (n : ℕ) (s : String) → all_chars is_ascii s ≡ true → all_ascii (split n s) ≡ true
unfolding split all_chars
split-all_ascii n String.[] h = refl
split-all_ascii n (String.◌∷◌ c s) h =
    let (a, b) = both_true (is_ascii c) (all_chars is_ascii s) h in
    elim (Bool-cases (is_char n c)) [
      | inl e ↦ rw e (split-all_ascii n s b)
      | inr e ↦ rw e (onto_first-all_ascii c (split n s) a (split-all_ascii n s b))
    ]

filter-all_ascii :
    (p : String → Bool) (ss : List String) → all_ascii ss ≡ true → all_ascii (filter p ss) ≡ true
filter-all_ascii p [] h = refl
filter-all_ascii p (s ∷ ss) h =
    let (a, b) = both_true (all_chars is_ascii s) (all_ascii ss) h in
    elim (Bool-cases (p s)) [
      | inl e ↦ rw (e, a, filter-all_ascii p ss b)
      | inr e ↦ rw e (filter-all_ascii p ss b)
    ]

all_chars-append :
    (p : Char → Bool) (s t : String)
    → all_chars p s ≡ true
    → all_chars p t ≡ true
    → all_chars p (s & t) ≡ true
unfolding all_chars
all_chars-append p String.[] t h k = rw (nil_append t) k
all_chars-append p (String.◌∷◌ c s) t h k =
    let (a, b) = both_true (p c) (all_chars p s) h in
    rw (cons_append c s t, a, all_chars-append p s t b k)

module _ (platform : Platform) where
  clean_segment-some :
      (s : String) → all_chars is_ascii s ≡ true → is_some (clean_segment platform s) ≡ true
  unfolding clean_segment
  clean_segment-some s h = map_option-is_some _ (percent_decode s) (percent_decode-some s h)

  first_or_missing-some :
      (ss : List String) → all_ascii ss ≡ true → is_some (first_or_missing platform ss) ≡ true
  first_or_missing-some [] h = refl
  first_or_missing-some (s ∷ ss) h =
      let (a, _) = both_true (all_chars is_ascii s) (all_ascii ss) h in clean_segment-some s a

  after_in-some :
      (otherwise : Option (Result String)) (ss : List String)
      → is_some otherwise ≡ true
      → all_ascii ss ≡ true
      → is_some (after_in platform otherwise ss) ≡ true
  unfolding after_in
  after_in-some otherwise [] h k = h
  after_in-some otherwise (s ∷ ss) h k =
      let (_, b) = both_true (all_chars is_ascii s) (all_ascii ss) k in
      elim (Bool-cases (platform.to_lowercase s == "in")) [
        | inl e ↦ rw e (first_or_missing-some ss b)
        | inr e ↦ rw e (after_in-some otherwise ss h b)
      ]

  identifier_in-some :
      (ss : List String) → all_ascii ss ≡ true → is_some (identifier_in platform ss) ≡ true
  identifier_in-some [] h = refl
  identifier_in-some (s ∷ ss) h =
      after_in-some (some (other_path platform (platform.to_lowercase s))) (s ∷ ss) refl h

  path_of-some :
      (path : String)
      → all_chars is_ascii path ≡ true
      → is_some (identifier_in platform (filter (λ s. not (is_nil s)) (split b'/' path))) ≡ true
  path_of-some path h =
      identifier_in-some _ (filter-all_ascii _ (split b'/' path) (split-all_ascii b'/' path h))

  from_url-some :
      (o : Option Url)
      → ((url : Url) → o ≡ some url → all_chars is_ascii url.path ≡ true)
      → is_some (from_url platform o) ≡ true
  from_url-some none h = refl
  from_url-some (some url) h = elim (Bool-cases (is_trusted platform url)) [
    | inl e ↦ rw e (path_of-some url.path (h url refl))
    | inr e ↦ rw e
  ]

  candidate_of-ascii :
      (raw : String)
      → all_chars is_ascii raw ≡ true
      → all_chars is_ascii (candidate_of platform raw) ≡ true
  unfolding all_chars
  candidate_of-ascii raw h =
      elim (Bool-cases
        (has_text "linkedin.com" (platform.to_lowercase raw) && not (has_text "//" raw))) [
          | inl e ↦ rw e (all_chars-append is_ascii "https://" raw refl h)
          | inr e ↦ rw e h
        ]

  module _ (parse : String → Option Url)
      (ascii_paths : (u : String) (url : Url)
        → parse u ≡ some url
        → all_chars is_ascii url.path ≡ true) where
    identifier_of-some :
        (candidate : String)
        → all_chars is_ascii candidate ≡ true
        → is_some (identifier_of platform parse candidate) ≡ true
    unfolding identifier_of identifier_from_url
    identifier_of-some candidate h = elim (Bool-cases (has_text "//" candidate)) [
      | inl e ↦ rw e (from_url-some (parse candidate) (ascii_paths candidate))
      | inr e ↦ rw e (clean_segment-some candidate h)
    ]

    outcome_of :
        (raw : String) (o : Option (Result String))
        → is_some o ≡ true
        → (r : Result ProfileRef) × ((o >>? λ identifier.
              some (ok (ref_of platform raw identifier)))
            ≡ some r)
    outcome_of raw none h = cc
    outcome_of raw (some (ok s)) h = (ok (ref_of platform raw s), refl)
    outcome_of raw (some (err e)) h = (err e, refl)

    -- A link in ASCII is always read to a reference or to an error, never to a panic, given that the
    -- paths of the crate url are in ASCII, into which it encodes them.
    pub parse_profile_url-total :
        (value : String)
        → all_chars is_ascii value ≡ true
        → (r : Result ProfileRef) × (parse_profile_url platform parse value ≡ some r)
    unfolding parse_profile_url
    parse_profile_url-total value h =
        let trimmed = all_chars-trim is_ascii value h in
        elim (Bool-cases (is_nil (trim value))) [
          | inl e ↦ rw e (_, refl)
          | inr e ↦ rw e (
              outcome_of (trim value) _ (
                identifier_of-some (candidate_of platform (trim value))
                  (candidate_of-ascii (trim value) trimmed)))
        ]
