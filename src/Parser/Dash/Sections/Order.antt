-- ===== src/Parser/Dash/Sections/Order.antt =====
-- The order of positions and of schools.
use mathlib.Core.List.{Perm}
use mathlib.Core.List.Perm
use linkex.Shared.{
  ℕ, String, ◌≡◌, refl, sym, Bool, true, false, ◌&&◌, ◌||◌, ◌==◌, Option, none, some, List, [], ◌∷◌,
  map, nat_eq, leb, arith, All, is_some, both_true,
}
use linkex.Shared.Int.{
  ℤ, pos, negsuc, pos_part, neg_part, int_eq, ltb_ℤ, leb_ℤ, max_i64, wrap_i64_self, ◌-ℤ◌,
}
use linkex.Shared.Options.{◌>>=◌, unwrap_or, filter}
use linkex.Domain.{Experience, DateRange, DateParts}
use linkex.Parser.Texts.{text_of}
use linkex.Shared.Sorting.{
  sort_by, IsSorted, IsTotal, IsTransitive, sort_by-IsSorted, sort_by-Perm, IsSorted-follows,
}
use linkex.Json.{Fields}
use linkex.Parser.{Platform}
use linkex.Parser.Dash.Sections.{
  leb_key, sort_key, key_of, negated, experience_before, experience, experience_item, is_position,
}

leb_key_total : (a b : ℕ × ℤ × ℤ) → leb_key a b ≡ false → leb_key b a ≡ true
leb_key_total (a, y, m) (b, z, k) h = ground arith

leb_key_trans : (a b c : ℕ × ℤ × ℤ) → leb_key a b ≡ true → leb_key b c ≡ true → leb_key a c ≡ true
leb_key_trans (a, y, m) (b, z, k) (c, x, l) h g = ground arith

experience_before-IsTotal : IsTotal experience_before
experience_before-IsTotal a b h = leb_key_total (sort_key a.dates) (sort_key b.dates) h

experience_before-IsTransitive : IsTransitive experience_before
experience_before-IsTransitive a b c h g =
    leb_key_trans (sort_key a.dates) (sort_key b.dates) (sort_key c.dates) h g

-- The year and the month, or else 0, in which something began.
abbrev pub began : Option DateRange → Option (ℤ × ℤ)
began dates = dates >>= λ d. d.start >>= λ s. s.year >>= λ y. some (y, unwrap_or (pos 0) s.month)

-- Of two beginnings, the first is as late as the second or later; one that is not known is the last.
abbrev pub is_as_late : Option (ℤ × ℤ) → Option (ℤ × ℤ) → Bool
is_as_late (some (y, m)) (some (z, k)) = ltb_ℤ z y || (z == y && leb_ℤ k m)
is_as_late (some _) none = true
is_as_late none none = true
is_as_late none (some _) = false

-- The negation of a number has no overflow.
abbrev pub is_negatable : ℤ → Bool
is_negatable n = leb (pos_part n) max_i64 && leb (neg_part n) max_i64

abbrev pub has_negatable : Option (ℤ × ℤ) → Bool
has_negatable none = true
has_negatable (some (y, m)) = is_negatable y && is_negatable m

minus-parts : (n : ℤ) → (pos_part (pos 0 -ℤ n) ≡ neg_part n) × (neg_part (pos 0 -ℤ n) ≡ pos_part n)
unfolding ◌-ℤ◌
minus-parts (pos n) = (ground arith, ground arith)
minus-parts (negsuc n) = (ground arith, ground arith)

negated-parts :
    (n : ℤ)
    → is_negatable n ≡ true
    → (pos_part (negated n) ≡ neg_part n) × (neg_part (negated n) ≡ pos_part n)
negated-parts n h =
    let (p, q) = minus-parts n in
    let same : negated n ≡ (pos 0 -ℤ n) = wrap_i64_self (pos 0 -ℤ n) (ground arith) in
    rw same (p, q)

abbrev pub newest_first : Experience → Experience → Bool
newest_first a b = is_as_late (began a.dates) (began b.dates)

abbrev pub shown : Experience → Option String × Option String
shown e = (e.title, e.description)

-- The sort key of a beginning.
key_at : Option (ℤ × ℤ) → ℕ × ℤ × ℤ
key_at none = (1, pos 0, pos 0)
key_at (some (y, m)) = (0, negated y, negated m)

key_of-year :
    (year : Option ℤ) (m : ℤ)
    → unwrap_or (1, pos 0, pos 0) (year >>= λ y. some (0, negated y, negated m))
      ≡ key_at (year >>= λ y. some (y, m))
unfolding key_at
key_of-year none m = refl
key_of-year (some y) m = refl

key_of-start :
    (start : Option DateParts)
    → key_of start ≡ key_at (start >>= λ s. s.year >>= λ y. some (y, unwrap_or (pos 0) s.month))
unfolding key_at
key_of-start none = refl
key_of-start (some s) = key_of-year s.year (unwrap_or (pos 0) s.month)

key_of-key_at : (dates : Option DateRange) → sort_key dates ≡ key_at (began dates)
unfolding sort_key key_at
key_of-key_at none = refl
key_of-key_at (some d) = key_of-start d.start

key_at-is_as_late :
    (a b : Option (ℤ × ℤ))
    → has_negatable a ≡ true
    → has_negatable b ≡ true
    → leb_key (key_at a) (key_at b) ≡ true
    → is_as_late a b ≡ true
unfolding key_at
key_at-is_as_late none none h k e = refl
key_at-is_as_late (some (y, m)) none h k e = refl
key_at-is_as_late none (some (z, n)) h k e = cc
key_at-is_as_late (some (y, m)) (some (z, n)) h k e =
    let (hy, hm) = both_true (is_negatable y) (is_negatable m) h in
    let (kz, kn) = both_true (is_negatable z) (is_negatable n) k in
    ground (arith, negated-parts y hy, negated-parts m hm, negated-parts z kz, negated-parts n kn)

newest_first-follows :
    (a b : Experience)
    → has_negatable (began a.dates) ≡ true
    → has_negatable (began b.dates) ≡ true
    → experience_before a b ≡ true
    → newest_first a b ≡ true
newest_first-follows a b h k e =
    key_at-is_as_late (began a.dates) (began b.dates) h k
      (rw (sym (key_of-key_at a.dates), sym (key_of-key_at b.dates)) e)

map-shown :
    (platform : Platform) (now : ℤ × ℤ) (positions : List Fields)
    → map shown (map (experience_item platform now) positions)
      ≡ map (λ p. (text_of p "title", text_of p "description")) positions
map-shown platform now [] = refl
map-shown platform now (p ∷ positions) = rw (map-shown platform now positions)

-- The experience of a Dash profile stands newest first, by the year and month in which each began,
-- and those of which that is not known stand last; it has the titles and descriptions of the
-- positions with a title or a company name, each as often as it is there. No year and no month of a
-- beginning is the least `i64`.
pub experience-IsSorted :
    (platform : Platform) (positions : List Fields) (now : ℤ × ℤ)
    → All (λ e. has_negatable (began e.dates) ≡ true) (experience platform positions now)
    → IsSorted newest_first (experience platform positions now)
      × Perm (map shown (experience platform positions now)) (
          map
            (λ p. (text_of p "title", text_of p "description"))
            (filter
              (λ p. is_some (text_of p "title") || is_some (text_of p "companyName"))
              positions))
unfolding experience
experience-IsSorted platform positions now bound =
    let items = map (experience_item platform now) (filter is_position positions) in
    (
      IsSorted-follows (λ e. has_negatable (began e.dates) ≡ true) experience_before newest_first
          newest_first-follows (sort_by experience_before items) bound
          (sort_by-IsSorted experience_before experience_before-IsTotal
            experience_before-IsTransitive items),
      rw⁻¹ (map-shown platform now (filter is_position positions))
          (Perm.map shown (sort_by-Perm experience_before items)),
    )
