-- ===== src/Parser/Runs/Drafts.antt =====
-- The theorems on the sections, on drafts and on profiles at concrete inputs.
use linkex.Shared.{
  All, ℕ, ◌+◌, String, ◌≡◌, refl, Bool, true, false, not, ◌&&◌, Option, none, some, List, [], ◌∷◌,
  ◌++◌, map, contains, string_eq, is_some, arith,
}
use linkex.Shared.Int.{pos}
use linkex.Shared.Options.{unwrap_or}
use mathlib.Core.List.{Perm}
use linkex.Shared.Sorting.{IsSorted}
use linkex.Shared.Text.{decimal}
use linkex.Json
use linkex.Json.{Value, Fields, lookup, as_object, as_array, as_str}
use linkex.Domain.{Profile}
use linkex.Draft.{ProfileDraft, is_populated}
use linkex.Draft.Merging.{distinct}
use linkex.Parser.Samples.{ascii, number, object_of, now, ada}
use linkex.Parser.Legacy.Views.{parse_skill_elements}
use linkex.Parser.Legacy.Distinct.{lowered, names_in, parse_skill_elements-distinct}
use linkex.Parser.Dash.{embedded}
use linkex.Parser.Dash.Positions.{flatten_positions}
use linkex.Parser.Dash.Positions.Seen.{
  standalone_of, groups_of, all_grouped, IsTaken, flatten_positions-distinct,
}
use linkex.Parser.Dash.Sections.{experience}
use linkex.Parser.Dash.Sections.Order.{
  has_negatable, began, newest_first, shown, experience-IsSorted,
}
use linkex.Parser.Assembler.{draft_from_payloads, enrich, build_profile}
use linkex.Parser.Assembler.Drafts.{strategies, IsFirst, draft_from_payloads-IsFirst, enrich-keeps}
use linkex.Parser.Texts.{text, integer, urn_id, urn_of, normalise_urn}

abbrev named : String → Fields
named s = Json.field "name" (Json.string s) Json.end

parse_skill_elements-distinct_example :
    (distinct (lowered ascii (parse_skill_elements ascii (named "Rust" ∷ named "RUST" ∷ [])))
      ≡ true)
    × (contains {A = String} "rust"
          (lowered ascii (parse_skill_elements ascii (named "Rust" ∷ named "RUST" ∷ [])))
        ≡ contains {A = String} "rust" (names_in ascii (named "Rust" ∷ named "RUST" ∷ [])))
parse_skill_elements-distinct_example =
    parse_skill_elements-distinct ascii (named "Rust" ∷ named "RUST" ∷ []) "rust"

abbrev position : String → String → Fields
position urn title =
    Json.field "entityUrn" (Json.string urn) (Json.field "title" (Json.string title) Json.end)

abbrev group : Fields
group =
    Json.field "profilePositionInPositionGroup"
      (Json.object (
        Json.field "elements"
          (Json.array (
            Json.cons (Json.object (position "p" "Engineer"))
              (Json.cons (Json.object (position "q" "Lead")) Json.nil)))
          Json.end))
      Json.end

abbrev collections : List (String × List Fields)
collections =
    ("profilePositions", position "p" "Engineer" ∷ [])
    ∷ ("profilePositionGroups", group ∷ group ∷ [])
    ∷ []

flatten_positions-distinct_example :
    (taken : List Fields) × (flatten_positions collections embedded
      ≡ standalone_of collections embedded ++ taken)
    × IsTaken
        (standalone_of collections embedded)
        (all_grouped embedded (groups_of collections embedded))
        taken
flatten_positions-distinct_example = flatten_positions-distinct collections embedded

abbrev since : String → ℕ → Fields
since title year = Json.field "title" (Json.string title) (
    Json.field "dateRange" (object_of (("start", object_of (("year", number year) ∷ [])) ∷ []))
      Json.end)

abbrev jobs : List Fields
jobs = since "Engineer" 2015 ∷ named "x" ∷ since "Lead" 2020 ∷ []

jobs_bounded : All (λ e. has_negatable (began e.dates) ≡ true) (experience ascii jobs now)
unfolding experience linkex.Shared.Sorting.sort_by linkex.Parser.Texts.text_of text lookup
    linkex.Parser.Texts.tidy linkex.Shared.Text.trim linkex.Parser.Texts.collapse
    linkex.Parser.Texts.crlf linkex.Shared.Sorting.insert_sorted
    linkex.Parser.Dash.Sections.sort_key linkex.Parser.Dash.Sections.date_range
    linkex.Parser.Dates.parse_time_period linkex.Parser.Dates.range_of
    linkex.Parser.Dates.parse_date integer linkex.Parser.Texts.in_i64 linkex.Shared.Int.wrap_i64
    linkex.Shared.Int.◌-ℤ◌
jobs_bounded = (refl, (refl, tt))

experience-IsSorted_example :
    IsSorted newest_first (experience ascii jobs now)
    × Perm
        (map shown (experience ascii jobs now))
        ((some "Engineer", none) ∷ (some "Lead", none) ∷ [])
unfolding linkex.Parser.Texts.text_of text lookup linkex.Parser.Texts.tidy linkex.Shared.Text.trim
    linkex.Parser.Texts.collapse linkex.Parser.Texts.crlf
experience-IsSorted_example = experience-IsSorted ascii jobs now jobs_bounded

abbrev payloads : Fields
payloads =
    Json.field "profileView"
      (object_of (
        (
          "profile",
          object_of (("firstName", Json.string "Ada") ∷ ("lastName", Json.string "Lovelace") ∷ []),
        )
        ∷ []))
      Json.end

abbrev read_draft : ProfileDraft
read_draft = unwrap_or ada (draft_from_payloads ascii payloads now)

draft_from_payloads-IsFirst_example : IsFirst ascii payloads now strategies read_draft
unfolding draft_from_payloads linkex.Parser.Assembler.draft_from_dash lookup
    linkex.Parser.Assembler.draft_from_legacy is_populated linkex.Parser.Legacy.parse_identity
    linkex.Parser.Legacy.joining linkex.Parser.Texts.text_of text linkex.Parser.Texts.tidy
    linkex.Shared.Text.trim linkex.Parser.Texts.collapse linkex.Parser.Texts.crlf
draft_from_payloads-IsFirst_example = draft_from_payloads-IsFirst ascii payloads now read_draft refl

abbrev extras : Fields
extras =
    Json.field "contactInfo" (object_of (("emailAddress", Json.string "Ada@x.org") ∷ [])) Json.end

enrich-keeps_example :
    ((enrich ascii extras ada).identity ≡ ada.identity)
    × ((enrich ascii extras ada).strategy ≡ ada.strategy)
    × (is_populated (enrich ascii extras ada) ≡ true)
unfolding is_populated
enrich-keeps_example = enrich-keeps ascii extras ada refl

abbrev published : Profile
published = build_profile "ada" "vanity" "https://www.linkedin.com/in/ada/" ada [] [] (pos 0)
