-- ===== src/Parser/Dates.antt =====
-- src/parser/common.rs: dates, periods and durations. Arithmetic is a release build's, which wraps.
pub mod Months
pub mod Periods
use Prim.Native.String
use linkex.Shared.{
  ℕ, zero, suc, ◌-◌, ◌/◌, ◌%◌, String, Bool, true, false, not, ◌&&◌, ◌||◌, Option, none, some, List,
  [], ◌∷◌, ◌++◌, leb, ltb, ◌==◌, nat_eq, if◌then◌else◌, is_none, is_some,
}
use linkex.Shared.Int.{ℤ, pos, negsuc, pos_part, ◌+ℤ◌, ◌-ℤ◌, leb_ℤ, wrap_i64, times}
use linkex.Shared.Options.{◌>>=◌, map_option, filter_option, unwrap_or, flatten}
use linkex.Shared.Text.{char_count, decimal, ◌&◌, join}
use linkex.Json.{Value, as_object}
use linkex.Domain.{DateParts, DateRange}
use linkex.Parser.Texts.{integer, field_or_null}

abbrev pub months : List String
months =
    "Jan" ∷ "Feb" ∷ "Mar" ∷ "Apr" ∷ "May" ∷ "Jun" ∷ "Jul" ∷ "Aug" ∷ "Sep" ∷ "Oct" ∷ "Nov" ∷ "Dec"
    ∷ []

-- `slice::get`
abbrev nth {ℓ} : {A : Type ℓ} → ℕ → List A → Option A
nth n [] = none
nth zero (x ∷ xs) = some x
nth (suc n) (x ∷ xs) = nth n xs

-- `to_string` of an `i64`
unfoldable pub show_int : ℤ → String
show_int (pos n) = decimal n
show_int (negsuc n) = "-" & decimal (suc n)

unfoldable pub zeros : ℕ → String
zeros zero = ""
zeros (suc n) = "0" & zeros n

-- `{:0width}`, where a sign counts
unfoldable pub padded : ℕ → ℤ → String
padded width (pos n) = zeros (width - char_count (decimal n)) & decimal n
padded width (negsuc n) = "-" & zeros (width - 1 - char_count (decimal (suc n))) & decimal (suc n)

unfoldable pub iso : Option ℤ → Option ℤ → Option ℤ → Option String
iso year month day = year >>= λ y.
    some (
      padded 4 y
      & "-"
      & padded 2 (unwrap_or (pos 1) month)
      & "-"
      & padded 2 (unwrap_or (pos 1) day))

unfoldable pub named_month : Option ℤ → Option String
named_month month = filter_option (λ m. leb_ℤ (pos 1) m && leb_ℤ m (pos 12)) month >>= λ m.
    nth (pos_part (m -ℤ pos 1)) months

abbrev pub label_of : Option ℤ → Option String → Option ℤ → Option String
label_of (some y) (some m) _ = some (m & " " & show_int y)
label_of (some y) none _ = some (show_int y)
label_of none (some m) (some d) = some (show_int d & " " & m)
label_of none (some m) none = some m
label_of none none _ = none

unfoldable pub date_label : Option ℤ → Option ℤ → Option ℤ → Option String
date_label year month day = label_of year (named_month month) day

abbrev pub date_parts : Option ℤ → Option ℤ → Option ℤ → Option DateParts
date_parts year month day =
    if is_none year && is_none month && is_none day
    then none
    else some (record {
      year = year;
      month = month;
      day = day;
      iso = iso year month day;
      label = date_label year month day;
    })

unfoldable pub parse_date : Value → Option DateParts
parse_date value = as_object value >>= λ obj.
    date_parts (integer (field_or_null "year" obj)) (integer (field_or_null "month" obj))
      (integer (field_or_null "day" obj))

-- The months from one month of a year to another, both counted.
unfoldable pub months_between : ℤ × ℤ → ℤ × ℤ → ℤ
months_between start end =
    let years = wrap_i64 (times 12 (wrap_i64 (end.0 -ℤ start.0))) in
    wrap_i64 (wrap_i64 (years +ℤ wrap_i64 (end.1 -ℤ start.1)) +ℤ pos 1)

-- the end of a period, where it has one, or else `now`
abbrev pub end_month : Option DateParts → ℤ × ℤ → Option (ℤ × ℤ)
end_month none now = some now
end_month (some end) now = end.year >>= λ y. end.month >>= λ m. some (y, m)

abbrev pub if_positive : ℤ → Option ℤ
if_positive n = if leb_ℤ n (pos 0) then none else some n

unfoldable pub duration_months : Option DateParts → Option DateParts → ℤ × ℤ → Option ℤ
duration_months start end now = start >>= λ s. s.year >>= λ y.
    s.month >>= λ m. end_month end now >>= λ last. if_positive (months_between (y, m) last)

abbrev years_part : ℕ → List String
years_part n = if ltb 0 n then (if n == 1 then "1 yr" else decimal n & " yrs") ∷ [] else []

abbrev months_part : ℕ → List String
months_part n = if ltb 0 n then (if n == 1 then "1 mo" else decimal n & " mos") ∷ [] else []

unfoldable pub humanise : ℕ → String
humanise n = join " " (years_part (n / 12) ++ months_part (n % 12))

unfoldable pub humanise_duration : Option ℤ → Option String
humanise_duration months =
    months >>= λ n. if leb_ℤ n (pos 0) then none else some (humanise (pos_part n))

abbrev label_with : String → Option String → String
label_with span none = span
label_with span (some pretty) = span & " (" & pretty & ")"

abbrev right_label : Option DateParts → Bool → Option String
right_label end is_current = if is_current then some "Present" else end >>= λ e. e.label

abbrev span_label : Option String → Option String → Option ℤ → Option String
span_label left right duration =
    if is_none left && is_none right
    then none
    else some (label_with (join " - " (flatten (left ∷ right ∷ []))) (humanise_duration duration))

unfoldable pub range_label : Option DateParts → Option DateParts → Bool → Option ℤ → Option String
range_label start end is_current duration =
    span_label (start >>= λ s. s.label) (right_label end is_current) duration

abbrev pub period_label : Option DateParts → Option DateParts → Bool → Option ℤ → Option String
period_label start end is_current duration =
    if not is_current && is_none end && is_none duration
    then (start >>= λ s. s.label)
    else range_label start end is_current duration

abbrev pub period_duration : Option DateParts → Option DateParts → Bool → ℤ × ℤ → Option ℤ
period_duration start end is_current now =
    if is_some end || is_current then duration_months start end now else none

abbrev pub period_of : Bool → ℤ × ℤ → Option DateParts → Option DateParts → DateRange
period_of open_ended_is_current now start end =
    let is_current = open_ended_is_current && is_none end && is_some start in
    let duration = period_duration start end is_current now in
    record {
      start = start;
      end = end;
      is_current = is_current;
      duration_months = duration;
      label = period_label start end is_current duration;
    }

unfoldable pub range_of : Bool → ℤ × ℤ → Option DateParts → Option DateParts → Option DateRange
range_of open_ended_is_current now start end =
    if is_none start && is_none end
    then none
    else some (period_of open_ended_is_current now start end)

unfoldable pub parse_time_period : Value → Bool → ℤ × ℤ → Option DateRange
parse_time_period value open_ended_is_current now = as_object value >>= λ obj.
    range_of open_ended_is_current now (parse_date (field_or_null "startDate" obj))
      (parse_date (field_or_null "endDate" obj))
