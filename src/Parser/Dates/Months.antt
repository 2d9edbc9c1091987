-- ===== src/Parser/Dates/Months.antt =====
-- The duration of a period, against counting months one by one.
use linkex.Shared.{
  ℕ, zero, suc, ◌+◌, ◌*◌, ◌≤◌, ◌<◌, ◌≡◌, none, some, arith, ◌==◌, nat_eq, if◌then◌else◌, Bool-cases,
  inl, inr,
}
use linkex.Shared.Int.{ℤ, pos, sub_ℕ, ◌+ℤ◌, ◌-ℤ◌, wrap_i64, wrap_i64_self, times}
use linkex.Domain.{DateParts}
use linkex.Parser.Dates.{months_between, duration_months, if_positive}

-- A month of a year, and the month after it.
abbrev pub next_month : ℕ × ℕ → ℕ × ℕ
next_month (y, m) = if m == 12 then (y + 1, 1) else (y, m + 1)

-- The month that is `n` months later.
unfoldable pub later : ℕ → ℕ × ℕ → ℕ × ℕ
later zero t = t
later (suc n) t = later n (next_month t)

record Reached (n y m : ℕ) (t : ℕ × ℕ) : Type 0 where
  index : t.0 * 12 + t.1 ≡ y * 12 + m + n
  month_in : (1 ≤ t.1) × (t.1 ≤ 12)
  year_in : (y ≤ t.0) × (t.0 ≤ y + n)

later-Reached : (n y m : ℕ) → 1 ≤ m → m ≤ 12 → Reached n y m (later n (y, m))
unfolding later
later-Reached zero y m lo hi = record {
  index = omega arith;
  month_in = (lo, hi);
  year_in = (omega arith, omega arith);
}
later-Reached (suc n) y m lo hi = elim (Bool-cases (m == 12)) [
  | inl e ↦
      let r = later-Reached n (y + 1) 1 (omega arith) (omega arith) in
      let last : m ≡ 12 = ground arith in
      rw e (record {
        index = omega (arith, r.index);
        month_in = r.month_in;
        year_in = (omega (arith, r.year_in), omega (arith, r.year_in));
      })
  | inr e ↦
      let early : m ≤ 11 = ground arith in
      let r = later-Reached n y (m + 1) (omega arith) (omega arith) in
      rw e (record {
        index = omega (arith, r.index);
        month_in = r.month_in;
        year_in = (omega (arith, r.year_in), omega (arith, r.year_in));
      })
]

-- Differences, far from where they would wrap.
wrap_difference :
    (a b : ℕ) → a ≤ 4000000000000000000 → b ≤ 4000000000000000000 → wrap_i64 (sub_ℕ a b) ≡ sub_ℕ a b
wrap_difference a b ha hb = wrap_i64_self (sub_ℕ a b) (ground arith)

times_difference : (a b : ℕ) → times 12 (sub_ℕ a b) ≡ sub_ℕ (a * 12) (b * 12)
times_difference a b = ground arith

add_differences : (a b c d : ℕ) → sub_ℕ a b +ℤ sub_ℕ c d ≡ sub_ℕ (a + c) (b + d)
unfolding ◌+ℤ◌
add_differences a b c d = ground arith

add_one : (a b : ℕ) → sub_ℕ a b +ℤ pos 1 ≡ sub_ℕ (a + 1) b
unfolding ◌+ℤ◌
add_one a b = ground arith

sub_pos : (a b : ℕ) → pos a -ℤ pos b ≡ sub_ℕ a b
unfolding ◌-ℤ◌
sub_pos a b = ground arith

-- Within these bounds nothing wraps.
months_between_exact :
    (y m z k : ℕ)
    → y ≤ 100000000000000000
    → z ≤ 100000000000000000
    → m ≤ 12
    → k ≤ 12
    → months_between (pos y, pos m) (pos z, pos k) ≡ sub_ℕ (z * 12 + k + 1) (y * 12 + m)
unfolding months_between
months_between_exact y m z k hy hz hm hk = rw (
  sub_pos z y,
  sub_pos k m,
  wrap_difference z y (omega arith) (omega arith),
  times_difference z y,
  wrap_difference (z * 12) (y * 12) (omega arith) (omega arith),
  wrap_difference k m (omega arith) (omega arith),
  add_differences (z * 12) (y * 12) k m,
  wrap_difference (z * 12 + k) (y * 12 + m) (omega arith) (omega arith),
  add_one (z * 12 + k) (y * 12 + m),
  wrap_difference (z * 12 + k + 1) (y * 12 + m) (omega arith) (omega arith),
)

abbrev pub AtMonth : DateParts → ℕ → ℕ → Type 0
AtMonth d y m = (d.year ≡ some (pos y)) × (d.month ≡ some (pos m))

positive_difference : (a b n : ℕ) → b ≡ a + (n + 1) → if_positive (sub_ℕ b a) ≡ some (pos (n + 1))
positive_difference a b n h = ground arith

no_difference : (a b : ℕ) → b ≤ a → if_positive (sub_ℕ b a) ≡ none
no_difference a b h = ground arith

-- A period from a month to the one `n` months after it lasts n + 1 months, both ends counted, where
-- years are at most 10 ^ 16.
pub duration_months-later :
    (start end : DateParts) (now : ℤ × ℤ) (n y m : ℕ)
    → AtMonth start y m
    → AtMonth end (later n (y, m)).0 (later n (y, m)).1
    → 1 ≤ m
    → m ≤ 12
    → y + n ≤ 10000000000000000
    → duration_months (some start) (some end) now ≡ some (pos (n + 1))
unfolding duration_months
duration_months-later start end now n y m s e lo hi bound =
    let t = later n (y, m) in
    let r = later-Reached n y m lo hi in
    rw (
      s.0,
      s.1,
      e.0,
      e.1,
      months_between_exact y m t.0 t.1 (omega arith) (omega (arith, r.year_in)) hi r.month_in.1,
      positive_difference (y * 12 + m) (t.0 * 12 + t.1 + 1) n (omega (arith, r.index)),
    )

-- A period whose end is before its start, at months of years up to 10 ^ 16, has no duration.
pub duration_months-backwards :
    (start end : DateParts) (now : ℤ × ℤ) (y m z k : ℕ)
    → AtMonth start y m
    → AtMonth end z k
    → m ≤ 12
    → k ≤ 12
    → y ≤ 10000000000000000
    → z * 12 + k < y * 12 + m
    → duration_months (some start) (some end) now ≡ none
unfolding duration_months
duration_months-backwards start end now y m z k s e hm hk bound before = rw (
  s.0,
  s.1,
  e.0,
  e.1,
  months_between_exact y m z k (omega arith) (omega arith) hm hk,
  no_difference (y * 12 + m) (z * 12 + k + 1) (omega arith),
)
