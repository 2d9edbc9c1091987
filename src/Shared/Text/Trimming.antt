-- ===== src/Shared/Text/Trimming.antt =====
-- What `trim` leaves: a text that trimming does not change.
use Prim.Native.Char.{Char}
use linkex.Shared.{String, ◌≡◌, refl, Bool, true, not, ◌&&◌, inl, inr, arith, Bool-cases, both_true}
use linkex.Shared.Text.{
  is_nil, is_whitespace, trim_start, trim_end, trim_matches, trim, all_chars, take_until,
}

-- The first character, if there is one, fails the test.
abbrev pub starts_off : (Char → Bool) → String → Bool
starts_off p String.[] = true
starts_off p (String.◌∷◌ c s) = not (p c)

module _ (p : Char → Bool) where
  pub trim_start-starts_off : (s : String) → starts_off p (trim_start p s) ≡ true
  unfolding trim_start
  trim_start-starts_off String.[] = refl
  trim_start-starts_off (String.◌∷◌ c s) = elim (Bool-cases (p c)) [
    | inl e ↦ rw (e, trim_start-starts_off s)
    | inr e ↦ rw (e, e)
  ]

  trim_start_self : (s : String) → starts_off p s ≡ true → trim_start p s ≡ s
  unfolding trim_start
  trim_start_self String.[] h = refl
  trim_start_self (String.◌∷◌ c s) h = elim (Bool-cases (p c)) [
    | inl e ↦ cc (rw e at h)
    | inr e ↦ rw e
  ]

  trim_end_idem : (s : String) → trim_end p (trim_end p s) ≡ trim_end p s
  unfolding trim_end
  trim_end_idem String.[] = refl
  trim_end_idem (String.◌∷◌ c s) = elim (Bool-cases (p c && is_nil (trim_end p s))) [
    | inl e ↦ rw e
    | inr e ↦ rw (e, trim_end_idem s, e)
  ]

  starts_off-trim_end : (s : String) → starts_off p s ≡ true → starts_off p (trim_end p s) ≡ true
  unfolding trim_end
  starts_off-trim_end String.[] h = refl
  starts_off-trim_end (String.◌∷◌ c s) h = elim (Bool-cases (p c && is_nil (trim_end p s))) [
    | inl e ↦ rw e
    | inr e ↦ rw (e, h)
  ]

  pub trim_matches-starts_off : (s : String) → starts_off p (trim_matches p s) ≡ true
  unfolding trim_matches
  trim_matches-starts_off s = starts_off-trim_end (trim_start p s) (trim_start-starts_off s)

  -- Trimming a second time changes nothing.
  pub trim_matches_idem : (s : String) → trim_matches p (trim_matches p s) ≡ trim_matches p s
  unfolding trim_matches
  trim_matches_idem s = rw (
    trim_start_self (trim_end p (trim_start p s))
        (starts_off-trim_end (trim_start p s) (trim_start-starts_off s)),
    trim_end_idem (trim_start p s),
  )

pub trim_idem : (s : String) → trim (trim s) ≡ trim s
unfolding trim
trim_idem s = trim_matches_idem is_whitespace s

-- A test that the characters of a text pass, on what trimming leaves of it.
module _ (p q : Char → Bool) where
  all_chars-trim_start : (s : String) → all_chars q s ≡ true → all_chars q (trim_start p s) ≡ true
  unfolding all_chars trim_start
  all_chars-trim_start String.[] h = refl
  all_chars-trim_start (String.◌∷◌ c s) h = ground (arith, all_chars-trim_start s)

  all_chars-trim_end : (s : String) → all_chars q s ≡ true → all_chars q (trim_end p s) ≡ true
  unfolding all_chars trim_end
  all_chars-trim_end String.[] h = refl
  all_chars-trim_end (String.◌∷◌ c s) h = ground (arith, all_chars-trim_end s)

pub all_chars-trim :
    (q : Char → Bool) (s : String) → all_chars q s ≡ true → all_chars q (trim s) ≡ true
unfolding trim trim_matches
all_chars-trim q s h =
    all_chars-trim_end is_whitespace q (trim_start is_whitespace s)
      (all_chars-trim_start is_whitespace q s h)

-- A text without a character that passes the test.
module _ (p : Char → Bool) where
  untrimmed_start : (s : String) → all_chars (λ c. not (p c)) s ≡ true → trim_start p s ≡ s
  unfolding all_chars trim_start
  untrimmed_start String.[] h = refl
  untrimmed_start (String.◌∷◌ c s) h = ground arith

  untrimmed_end : (s : String) → all_chars (λ c. not (p c)) s ≡ true → trim_end p s ≡ s
  unfolding all_chars trim_end
  untrimmed_end String.[] h = refl
  untrimmed_end (String.◌∷◌ c s) h = ground (arith, untrimmed_end s)

pub trim_matches_self :
    (p : Char → Bool) (s : String) → all_chars (λ c. not (p c)) s ≡ true → trim_matches p s ≡ s
unfolding trim_matches
trim_matches_self p s h = rw (untrimmed_start p s h, untrimmed_end p s h)

-- A text without white space is trimmed.
pub trim_self : (s : String) → all_chars (λ c. not (is_whitespace c)) s ≡ true → trim s ≡ s
unfolding trim
trim_self s h = trim_matches_self is_whitespace s h

pub all_chars-take_until :
    (p : Char → Bool) (s : String) → all_chars (λ c. not (p c)) (take_until p s) ≡ true
unfolding all_chars take_until
all_chars-take_until p String.[] = refl
all_chars-take_until p (String.◌∷◌ c s) = elim (Bool-cases (p c)) [
  | inl e ↦ rw e
  | inr e ↦ rw (e, e, all_chars-take_until p s)
]

pub take_until_self :
    (p : Char → Bool) (s : String) → all_chars (λ c. not (p c)) s ≡ true → take_until p s ≡ s
unfolding all_chars take_until
take_until_self p String.[] h = refl
take_until_self p (String.◌∷◌ c s) h = elim (Bool-cases (p c)) [
  | inl e ↦ cc (rw e at h)
  | inr e ↦ rw (e, take_until_self p s (both_true (not (p c)) (all_chars (λ c. not (p c)) s) h).1)
]
