-- ===== src/Parser/Dates/Periods.antt =====
-- What `parse_time_period` returns.
use linkex.Shared.{
  ◌≡◌, refl, Bool, true, false, not, ◌&&◌, ◌||◌, sym, Option, none, some, inl, inr, arith, is_none,
  is_some, Bool-cases, if◌then◌else◌,
}
use linkex.Shared.Int.{ℤ, pos, leb_ℤ}
use linkex.Shared.Options.{bind-some}
use linkex.Json.{Value, as_object}
use linkex.Domain.{DateParts, DateRange}
use linkex.Parser.Texts.{field_or_null}
use linkex.Parser.Dates.{
  end_month, parse_date, duration_months, if_positive, months_between, range_of, period_of,
  period_duration, parse_time_period,
}

-- What holds of every period: it has an end or it is current, never both; it is current only with
-- a start; and a duration is positive, and only of a period with a start that ended or is current.
pub record IsPeriod (r : DateRange) : Type 0 where
  pub dated : is_none r.start && is_none r.end ≡ false
  pub open_ended : is_some r.end && r.is_current ≡ false
  pub begun : r.is_current && is_none r.start ≡ false
  pub measured : is_some r.duration_months && not (is_some r.end || r.is_current) ≡ false
  pub started : is_some r.duration_months && is_none r.start ≡ false
  pub positive : (n : ℤ) → r.duration_months ≡ some n → leb_ℤ n (pos 0) ≡ false

if_positive-some : (n k : ℤ) → if_positive n ≡ some k → leb_ℤ k (pos 0) ≡ false
if_positive-some n k h = ground arith

duration_months-positive :
    (start end : Option DateParts) (now : ℤ × ℤ) (k : ℤ)
    → duration_months start end now ≡ some k
    → leb_ℤ k (pos 0) ≡ false
unfolding duration_months
duration_months-positive start end now k h =
    let (s, _, h1) = bind-some start _ k h in
    let (y, _, h2) = bind-some s.year _ k h1 in
    let (m, _, h3) = bind-some s.month _ k h2 in
    let (last, _, h4) =
      bind-some (end_month end now) (λ last. if_positive (months_between (y, m) last)) k h3 in
    if_positive-some (months_between (y, m) last) k h4

only_if : (c : Bool) (d : Option ℤ) → is_some (if c then d else none) && not c ≡ false
only_if true none = refl
only_if true (some _) = refl
only_if false d = refl

started_only :
    (c : Bool) (start end : Option DateParts) (now : ℤ × ℤ)
    → is_some (if c then duration_months start end now else none) && is_none start ≡ false
unfolding duration_months
started_only true none end now = refl
started_only true (some s) end now = ground arith
started_only false start end now = refl

period_duration-positive :
    (start end : Option DateParts) (is_current : Bool) (now : ℤ × ℤ) (k : ℤ)
    → period_duration start end is_current now ≡ some k
    → leb_ℤ k (pos 0) ≡ false
period_duration-positive start end is_current now k h =
    elim (Bool-cases (is_some end || is_current)) [
      | inl e ↦ duration_months-positive start end now k (rw e at h)
      | inr e ↦ cc (rw e at h)
    ]

-- A period that is made of a start and an end, one of which is there.
period_of-IsPeriod :
    (o : Bool) (now : ℤ × ℤ) (start end : Option DateParts)
    → is_none start && is_none end ≡ false
    → IsPeriod (period_of o now start end)
period_of-IsPeriod o now start end h =
    let current = o && is_none end && is_some start in
    record {
      dated = h;
      open_ended = ground arith;
      begun = ground arith;
      measured = only_if (is_some end || current) (duration_months start end now);
      started = started_only (is_some end || current) start end now;
      positive = λ n k. period_duration-positive start end current now n k;
    }

range_of-IsPeriod :
    (o : Bool) (now : ℤ × ℤ) (start end : Option DateParts) (r : DateRange)
    → range_of o now start end ≡ some r
    → IsPeriod r
unfolding range_of
range_of-IsPeriod o now start end r h = elim (Bool-cases (is_none start && is_none end)) [
  | inl e ↦ cc (rw e at h)
  | inr e ↦
      let same : period_of o now start end ≡ r = cc (rw e at h) in
      rw (sym same) (period_of-IsPeriod o now start end e)
]

-- Any JSON value that is read as a period gives a consistent one.
pub parse_time_period-IsPeriod :
    (value : Value) (open_ended_is_current : Bool) (now : ℤ × ℤ) (r : DateRange)
    → parse_time_period value open_ended_is_current now ≡ some r
    → IsPeriod r
unfolding parse_time_period
parse_time_period-IsPeriod value o now r h =
    let (obj, _, made) = bind-some (as_object value) _ r h in
    range_of-IsPeriod o now (parse_date (field_or_null "startDate" obj))
      (parse_date (field_or_null "endDate" obj)) r made
