-- ===== src/Parser/Examples.antt =====
-- The unit tests of src/parser/common.rs, and concrete inputs, on the letters of ASCII.
use linkex.Shared.{
  ℕ, ◌-◌, ◌≤◌, String, ◌≡◌, refl, Bool, true, false, ◌&&◌, ◌||◌, Option, none, some, List, [], ◌∷◌,
  leb, arith, if◌then◌else◌, map,
}
use linkex.Shared.Int.{ℤ, pos, negsuc}
use linkex.Shared.Options.{map_option}
use linkex.Shared.Text.{char_or}
use linkex.Json
use linkex.Json.{Value, Fields}
use linkex.Parser.{Platform}
use linkex.Parser.Texts.{text, integer, urn_id, normalise_urn}
use linkex.Parser.Dates.{parse_date, parse_time_period}
use linkex.Parser.Images.{parse_vector_image}
use linkex.Parser.Labels.{enum_label}
use linkex.Parser.Samples.{ascii, object_of, number, month, now, picture}

text_spaces : text (Json.string "  hello   world ") ≡ some "hello world"
unfolding text linkex.Parser.Texts.tidy linkex.Shared.Text.trim linkex.Parser.Texts.collapse
    linkex.Parser.Texts.crlf
text_spaces = refl

text_lines : text (Json.string "a\r\nb\t  c") ≡ some "a\nb c"
unfolding text linkex.Parser.Texts.tidy linkex.Shared.Text.trim linkex.Parser.Texts.collapse
    linkex.Parser.Texts.crlf
text_lines = refl

text_blank : text (Json.string "   ") ≡ none
unfolding text linkex.Parser.Texts.tidy linkex.Shared.Text.trim linkex.Parser.Texts.collapse
    linkex.Parser.Texts.crlf
text_blank = refl

text_space_after_line : text (Json.string "a \n b") ≡ some "a \n b"
unfolding text linkex.Parser.Texts.tidy linkex.Shared.Text.trim linkex.Parser.Texts.collapse
    linkex.Parser.Texts.crlf
text_space_after_line = refl

integer_text : integer (Json.string "12") ≡ some (pos 12)
unfolding integer linkex.Parser.Texts.parse_digits linkex.Shared.Text.trim
    linkex.Shared.Text.all_chars linkex.Parser.Texts.in_i64 linkex.Parser.Texts.read_digits
integer_text = refl

integer_letters : integer (Json.string "12x") ≡ none
unfolding integer linkex.Parser.Texts.parse_digits linkex.Shared.Text.trim
    linkex.Shared.Text.all_chars
integer_letters = refl

integer_float : integer (Json.float (pos 4000000000)) ≡ none
unfolding integer
integer_float = refl

integer_beyond : integer (Json.integer (pos 9223372036854775808)) ≡ none
unfolding integer linkex.Parser.Texts.in_i64
integer_beyond = refl

urn_plain : urn_id "urn:li:fs_miniProfile:ACoAAB1c" ≡ some "ACoAAB1c"
unfolding urn_id linkex.Shared.Text.strip_prefix linkex.Shared.Text.split_once
    linkex.Shared.Text.trim linkex.Shared.Text.take_until
urn_plain = refl

urn_pair : urn_id "urn:li:fs_position:(ACoAAB1c,1234)" ≡ some "ACoAAB1c"
unfolding urn_id linkex.Shared.Text.strip_prefix linkex.Shared.Text.split_once
    linkex.Shared.Text.trim linkex.Shared.Text.take_until
urn_pair = refl

urn_none : urn_id "bucket" ≡ none
unfolding urn_id linkex.Shared.Text.strip_prefix
urn_none = refl

urn_normal :
    normalise_urn (Json.string "urn:li:fsd_profilePosition:(x,9)") "position"
    ≡ some "urn:li:position:x"
unfolding normalise_urn urn_id linkex.Shared.Text.strip_prefix linkex.Shared.Text.split_once
    linkex.Shared.Text.trim linkex.Shared.Text.take_until
urn_normal = refl

date_full :
    map_option {B = Option String × Option String}
      (λ d. (d.iso, d.label))
      (parse_date
        (object_of (("year", number 2021) ∷ ("month", number 3) ∷ ("day", number 4) ∷ [])))
    ≡ some (some "2021-03-04", some "Mar 2021")
unfolding parse_date integer Json.lookup linkex.Parser.Texts.in_i64 linkex.Parser.Dates.iso
    linkex.Parser.Dates.date_label linkex.Parser.Dates.padded linkex.Parser.Dates.named_month
    linkex.Parser.Dates.zeros linkex.Shared.Int.◌-ℤ◌ linkex.Shared.Text.char_count
    linkex.Parser.Dates.show_int linkex.Shared.Text.decimal char_or
date_full = refl

date_year :
    map_option {B = Option String × Option String}
      (λ d. (d.iso, d.label))
      (parse_date (object_of (("year", number 2020) ∷ [])))
    ≡ some (some "2020-01-01", some "2020")
unfolding parse_date integer Json.lookup linkex.Parser.Texts.in_i64 linkex.Parser.Dates.iso
    linkex.Parser.Dates.date_label linkex.Parser.Dates.padded linkex.Parser.Dates.named_month
    linkex.Parser.Dates.zeros linkex.Parser.Dates.show_int linkex.Shared.Text.char_count
    linkex.Shared.Text.decimal char_or
date_year = refl

date_birthday :
    map_option
      (λ d. d.label)
      (parse_date (object_of (("month", number 9) ∷ ("day", number 19) ∷ [])))
    ≡ some (some "19 Sep")
unfolding parse_date integer Json.lookup linkex.Parser.Texts.in_i64 linkex.Parser.Dates.date_label
    linkex.Parser.Dates.named_month linkex.Shared.Int.◌-ℤ◌ linkex.Parser.Dates.show_int
    linkex.Shared.Text.decimal char_or
date_birthday = refl

date_none : parse_date (object_of (("janitor", number 1) ∷ [])) ≡ none
unfolding parse_date integer Json.lookup
date_none = refl

duration_of : Value → Bool → Option (Option ℤ × Option String)
duration_of v current =
    map_option (λ r. (r.duration_months, r.label)) (parse_time_period v current now)

period_past :
    duration_of (object_of (("startDate", month 2021 3) ∷ ("endDate", month 2022 8) ∷ [])) true
    ≡ some (some (pos 18), some "Mar 2021 - Aug 2022 (1 yr 6 mos)")
unfolding duration_of parse_time_period linkex.Parser.Dates.range_of parse_date Json.lookup integer
    linkex.Parser.Texts.in_i64 linkex.Parser.Dates.duration_months linkex.Parser.Dates.range_label
    linkex.Parser.Dates.months_between linkex.Parser.Dates.date_label linkex.Shared.Int.wrap_i64
    linkex.Parser.Dates.named_month linkex.Shared.Int.◌+ℤ◌ linkex.Shared.Int.◌-ℤ◌
    linkex.Parser.Dates.humanise_duration linkex.Parser.Dates.show_int linkex.Shared.Text.decimal
    char_or linkex.Parser.Dates.humanise
period_past = refl

period_current :
    duration_of (object_of (("startDate", month 2024 1) ∷ [])) true
    ≡ some (some (pos 32), some "Jan 2024 - Present (2 yrs 8 mos)")
unfolding duration_of parse_time_period linkex.Parser.Dates.range_of parse_date Json.lookup integer
    linkex.Parser.Texts.in_i64 linkex.Parser.Dates.duration_months linkex.Parser.Dates.range_label
    linkex.Parser.Dates.months_between linkex.Parser.Dates.date_label linkex.Shared.Int.wrap_i64
    linkex.Parser.Dates.named_month linkex.Shared.Int.◌+ℤ◌ linkex.Shared.Int.◌-ℤ◌
    linkex.Parser.Dates.humanise_duration linkex.Parser.Dates.show_int linkex.Shared.Text.decimal
    char_or linkex.Parser.Dates.humanise
period_current = refl

period_certified :
    duration_of (object_of (("startDate", month 2019 2) ∷ [])) false ≡ some (none, some "Feb 2019")
unfolding duration_of parse_time_period linkex.Parser.Dates.range_of parse_date Json.lookup integer
    linkex.Parser.Texts.in_i64 linkex.Parser.Dates.date_label linkex.Parser.Dates.named_month
    linkex.Shared.Int.◌-ℤ◌ linkex.Parser.Dates.show_int linkex.Shared.Text.decimal char_or
period_certified = refl

-- The subtraction of years wraps where a build with overflow checks panics.
period_wrapped :
    duration_of
      (object_of (
        ("startDate", object_of (("year", Json.integer (negsuc 0)) ∷ ("month", number 1) ∷ []))
        ∷ ("endDate", object_of (("year", number 9223372036854775807) ∷ ("month", number 1) ∷ []))
        ∷ []))
      true
    ≡ some (some (pos 1), some "Jan -1 - Jan 9223372036854775807 (1 mo)")
unfolding duration_of parse_time_period linkex.Parser.Dates.range_of parse_date Json.lookup integer
    linkex.Parser.Texts.in_i64 linkex.Parser.Dates.duration_months linkex.Parser.Dates.range_label
    linkex.Parser.Dates.months_between linkex.Parser.Dates.date_label linkex.Shared.Int.wrap_i64
    linkex.Parser.Dates.named_month linkex.Shared.Int.◌+ℤ◌ linkex.Shared.Int.◌-ℤ◌
    linkex.Parser.Dates.humanise_duration linkex.Parser.Dates.show_int linkex.Shared.Text.decimal
    char_or linkex.Parser.Dates.humanise
period_wrapped = refl

image_largest :
    map_option {B = String × List (Option ℤ)}
      (λ i. (i.url, map (λ r. r.width) i.renditions))
      (parse_vector_image ascii picture)
    ≡ some ("https://media.licdn.com/a/800.jpg", some (pos 800) ∷ some (pos 100) ∷ [])
unfolding parse_vector_image Json.lookup linkex.Shared.Sorting.sort_by Json.items_list
    linkex.Parser.Images.rendition linkex.Shared.Sorting.insert_sorted linkex.Parser.Images.area
    integer linkex.Parser.Texts.in_i64
image_largest = refl

label_words : enum_label ascii (Json.string "NATIVE_OR_BILINGUAL") ≡ some "Native or bilingual"
unfolding enum_label text linkex.Parser.Texts.tidy linkex.Shared.Text.trim
    linkex.Parser.Texts.collapse linkex.Parser.Texts.crlf linkex.Shared.Text.all_chars
    linkex.Shared.Text.split linkex.Parser.Labels.unscored char_or linkex.Parser.Labels.capitalized
label_words = refl

label_kept : enum_label ascii (Json.string "Senior Engineer") ≡ some "Senior Engineer"
unfolding enum_label text linkex.Parser.Texts.tidy linkex.Shared.Text.trim
    linkex.Parser.Texts.collapse linkex.Parser.Texts.crlf linkex.Shared.Text.all_chars
    linkex.Parser.Labels.has_char
label_kept = refl
