-- ===== src/Parser/Runs.antt =====
-- The theorems on the parsers at concrete inputs.
mod Drafts
use linkex.Shared.{
  ℕ, ◌+◌, ◌≤◌, ◌↔◌, String, ◌≡◌, refl, Bool, true, false, not, ◌&&◌, Option, none, some, List, [],
  ◌∷◌, ◌++◌, map, contains, string_eq, is_some, arith,
}
use linkex.Shared.Int.{pos, pos_part}
use linkex.Shared.Options.{◌>>=◌, filter, unwrap_or}
use mathlib.Core.List.{Perm}
use linkex.Shared.Sorting.{IsSorted}
use linkex.Shared.Text.{decimal}
use linkex.Json
use linkex.Json.{Value, Fields, lookup, as_object, as_array, as_str}
use linkex.Domain.{DateParts, DateRange, ContactInfo, ImageSet, Profile}
use linkex.Draft.{ProfileDraft, is_populated, filled}
use linkex.Draft.Merging.{distinct}
use linkex.Parser.Samples.{ascii, object_of, number, now, picture, ada, nothing}
use linkex.Parser.Images.{parse_vector_image, vector_image_in}
use linkex.Parser.Images.Largest.{IsLargestFirst, parse_vector_image-IsLargestFirst}
use linkex.Parser.Contact.Unique.{IsCard, parse_contact_info-IsCard}
use linkex.Parser.Legacy.Views.{parse_skill_elements}
use linkex.Parser.Legacy.Distinct.{lowered, names_in, parse_skill_elements-distinct}
use linkex.Parser.Dash.{embedded}
use linkex.Parser.Dash.Positions.{collection_of, flatten_positions, position_urn, is_seen}
use linkex.Parser.Dash.Positions.Fresh.{distinct_urns}
use linkex.Parser.Dash.Positions.Seen.{flatten_positions-distinct}
use linkex.Parser.Dash.Sections.{experience, experience_before, experience_item, is_position}
use linkex.Parser.Dash.Sections.Order.{experience-IsSorted}
use linkex.Parser.Assembler.{draft_from_payloads, enrich, build_profile}
use linkex.Parser.Assembler.Drafts.{strategies, enrich-keeps}
use linkex.Parser.Assembler.Profiles.{all_true}
use linkex.Parser.Texts.{text, integer, urn_id, urn_of, normalise_urn}
use linkex.Parser.Texts.Clean.{IsClean, text-IsClean}
use linkex.Parser.Texts.Numbers.{integer-decimal}
use linkex.Parser.Texts.Urns.{normalise_urn-same_id}
use linkex.Parser.Dates.{parse_date, duration_months, parse_time_period}
use linkex.Parser.Dates.Months.{duration_months-later}
use linkex.Parser.Dates.Periods.{IsPeriod, parse_time_period-IsPeriod}
use linkex.Parser.Index.{EntityIndex, new, by_urn, find_vector_image, is_image, max_depth}
use linkex.Parser.Index.Entities.{last_with, new-last}
use linkex.Parser.Index.Search.{find_vector_image-found}

text-IsClean_example : IsClean "Ada Lovelace"
unfolding text linkex.Parser.Texts.tidy linkex.Shared.Text.trim linkex.Parser.Texts.collapse
    linkex.Parser.Texts.crlf
text-IsClean_example = text-IsClean (Json.string "  Ada \t Lovelace ") "Ada Lovelace" refl

normalise_urn-same_id_example :
    (normalise_urn (Json.string "urn:li:fsd_skill:(ACoA,9)") "skill" ≡ some "urn:li:skill:ACoA")
    × (urn_id "urn:li:skill:ACoA" ≡ some "ACoA")
    × (normalise_urn (Json.string "urn:li:skill:ACoA") "skill" ≡ some "urn:li:skill:ACoA")
unfolding urn_id linkex.Shared.Text.strip_prefix linkex.Shared.Text.split_once
    linkex.Shared.Text.trim linkex.Shared.Text.take_until linkex.Shared.Text.all_chars
normalise_urn-same_id_example =
    normalise_urn-same_id "urn:li:fsd_skill:(ACoA,9)" "skill" "ACoA" refl refl refl

abbrev parts : ℕ → ℕ → DateParts
parts y m = record {
  year = some (pos y);
  month = some (pos m);
  day = none;
  iso = none;
  label = none;
}

duration_months-later_example :
    duration_months (some (parts 2021 11)) (some (parts 2022 2)) now ≡ some (pos 4)
unfolding linkex.Parser.Dates.Months.later
duration_months-later_example =
    duration_months-later (parts 2021 11) (parts 2022 2) now 3 2021 11 (refl, refl) (refl, refl)
      (omega arith) (omega arith) (omega arith)

abbrev in_2020 : DateRange
in_2020 = record {
  start = some (record {
    year = some (pos 2020);
    month = none;
    day = none;
    iso = some "2020-01-01";
    label = some "2020";
  });
  end = none;
  is_current = true;
  duration_months = none;
  label = some "2020 - Present";
}

parse_time_period-IsPeriod_example : IsPeriod in_2020
unfolding parse_time_period linkex.Parser.Dates.range_of parse_date lookup integer
    linkex.Parser.Texts.in_i64 linkex.Parser.Dates.iso linkex.Parser.Dates.date_label
    duration_months linkex.Parser.Dates.range_label linkex.Parser.Dates.padded
    linkex.Parser.Dates.named_month linkex.Parser.Dates.zeros linkex.Parser.Dates.show_int
    linkex.Parser.Dates.humanise_duration linkex.Shared.Text.char_count decimal
    linkex.Shared.Text.char_or
parse_time_period-IsPeriod_example =
    parse_time_period-IsPeriod
      (object_of (("startDate", object_of (("year", number 2020) ∷ [])) ∷ [])) true now in_2020 refl

abbrev item : String → String → Value
item urn name = object_of (("entityUrn", Json.string urn) ∷ ("name", Json.string name) ∷ [])

abbrev items : List Value
items = item "a" "first" ∷ item "b" "other" ∷ item "a" "second" ∷ []

abbrev included : Fields
included =
    Json.field "included"
      (Json.array (
        Json.cons (item "a" "first")
          (Json.cons (item "b" "other") (Json.cons (item "a" "second") Json.nil))))
      Json.end

abbrev the_index : EntityIndex
the_index = record {
  included = ("a", item "a" "second") ∷ ("b", item "b" "other") ∷ [];
  order = "a" ∷ "b" ∷ [];
  content = none;
}

new-last_example :
    (by_urn the_index (some "a") ≡ some (item "a" "second"))
    × (distinct ("a" ∷ "b" ∷ []) ≡ true)
    × (contains {A = String} "a" ("a" ∷ "b" ∷ []) ≡ true)
unfolding lookup Json.items_list new linkex.Parser.Index.index_all linkex.Shared.insert
    linkex.Shared.get last_with
new-last_example = new-last (Json.object included) included items the_index "a" refl refl refl

abbrev no_image : ImageSet
no_image = record { url = ""; renditions = [] }

abbrev largest_set : ImageSet
largest_set = unwrap_or no_image (parse_vector_image ascii picture)

parse_vector_image-IsLargestFirst_example :
    (container : Fields) × (root : String) × (artifacts : List Value) × ((as_object picture
        >>= vector_image_in)
      ≡ some container)
    × ((lookup "rootUrl" container >>= as_str) ≡ some root)
    × ((lookup "artifacts" container >>= as_array) ≡ some artifacts)
    × IsLargestFirst ascii root artifacts largest_set
unfolding parse_vector_image lookup linkex.Shared.Sorting.sort_by Json.items_list
    linkex.Parser.Images.rendition linkex.Shared.Sorting.insert_sorted linkex.Parser.Images.area
    integer linkex.Parser.Texts.in_i64
parse_vector_image-IsLargestFirst_example =
    parse_vector_image-IsLargestFirst ascii picture largest_set refl

abbrev a_card : ContactInfo
a_card = record {
  emails = "Ada@x.org" ∷ [];
  phone_numbers = [];
  websites = [];
  twitter_handles = [];
  birthday = none;
  address = none;
  ims = [];
}

parse_contact_info-IsCard_example : IsCard ascii a_card
unfolding linkex.Parser.Contact.parse_contact_info linkex.Parser.Contact.push_unique
    linkex.Parser.Texts.text_of text lookup linkex.Parser.Texts.tidy linkex.Shared.Text.trim
    linkex.Parser.Texts.collapse linkex.Parser.Texts.crlf linkex.Parser.Contact.push_each
    linkex.Parser.Contact.list_of
parse_contact_info-IsCard_example =
    parse_contact_info-IsCard ascii (object_of (("emailAddress", Json.string "Ada@x.org") ∷ []))
      a_card refl
