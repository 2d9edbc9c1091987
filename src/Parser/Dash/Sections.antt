-- ===== src/Parser/Dash/Sections.antt =====
-- src/parser/dash.rs: the sections of a profile.
pub mod Order
pub mod Records
use linkex.Shared.{
  ℕ, zero, suc, String, Bool, true, false, not, ◌&&◌, ◌||◌, Option, none, some, List, [], ◌∷◌, ◌++◌,
  ◌==◌, string_eq, nat_eq, map, contains, ltb, is_none, is_some, or_option, if◌then◌else◌,
}
use linkex.Shared.Int.{ℤ, pos, ◌-ℤ◌, ltb_ℤ, leb_ℤ, int_eq, wrap_i64}
use linkex.Shared.Options.{◌>>=◌, filter, filter_map, find_map, map_option, unwrap_or}
use linkex.Shared.Sorting.{sort_by}
use linkex.Shared.Text.{◌&◌, is_char, is_nil, non_empty, trim_matches, split, strip_prefix}
use Prim.Native.String
use Prim.Native.Char.{Char}
use linkex.Json
use linkex.Json.{Value, Fields, lookup, as_str, as_object, as_array, null}
use linkex.Domain.{
  Certification, Course, DateParts, DateRange, Education, Experience, Honor, Language, Organization,
  OrganizationMembership, Patent, Project, Publication, Skill, TestScore, VolunteerExperience,
}
use linkex.Parser.{Platform}
use linkex.Parser.Texts.{text_of, first_text_of, urn_id, normalise_urn, field_or_null}
use linkex.Parser.Dates.{parse_date, parse_time_period}
use linkex.Parser.Organizations.{organization, company_url}
use linkex.Parser.Labels.{enum_label, objects_in}
use linkex.Parser.Legacy.{joining, as_bool}
use linkex.Parser.Legacy.Views.{parse_skill_elements}
use linkex.Parser.Dash.Identity.{image}

-- `split_once` at a text: what stands after it
unfoldable pub after_text : String → String → Option String
after_text separator String.[] = none
after_text separator (String.◌∷◌ c s) =
    or_option (strip_prefix separator (String.◌∷◌ c s)) (after_text separator s)

abbrev head_of : List String → Option String
head_of [] = none
head_of (part ∷ parts) = some part

unfoldable pub universal_name_of : String → Option String
universal_name_of url = after_text "/company/" url >>= λ rest.
    head_of (split b'/' (trim_matches (is_char b'/') rest)) >>= λ part.
    head_of (split b'?' part) >>= non_empty

abbrev pub dated_fields : Fields → Fields
dated_fields raw =
    Json.field "startDate"
      (unwrap_or null (or_option (lookup "start" raw) (lookup "startDate" raw)))
      (Json.field "endDate" (unwrap_or null (or_option (lookup "end" raw) (lookup "endDate" raw)))
        Json.end)

unfoldable pub date_range : Fields → ℤ × ℤ → Bool → Option DateRange
date_range entity now current =
    or_option (lookup "dateRange" entity) (lookup "timePeriod" entity) >>= as_object >>= λ raw.
    parse_time_period (Json.object (dated_fields raw)) current now

unfoldable pub single_date : Fields → List String → Option DateParts
single_date entity keys = or_option (find_map (λ key. parse_date (field_or_null key entity)) keys) (
    lookup "dateRange" entity
    >>= as_object
    >>= (λ range. or_option (lookup "start" range) (lookup "startDate" range))
    >>= parse_date)

-- The name of a contributor: his own, or his profile's.
abbrev contributor : Fields → Option String
contributor item = or_option (text_of item "name") (
    let profile = unwrap_or item (lookup "profile" item >>= as_object) in
    joining (text_of profile "firstName") (text_of profile "lastName"))

abbrev contributor_items : Value → List Fields
contributor_items (Json.object o) = objects_in (lookup "elements" o >>= as_array)
contributor_items v = objects_in (as_array v)

unfoldable pub add_names : List String → List String → List String
add_names names [] = names
add_names names (n ∷ ns) = add_names (if contains n names then names else names ++ n ∷ []) ns

unfoldable pub contributors_from : Fields → List String → List String → List String
contributors_from entity [] names = names
contributors_from entity (key ∷ keys) names = contributors_from entity keys (
    add_names names
      (filter_map contributor (unwrap_or [] (map_option contributor_items (lookup key entity)))))

unfoldable pub contributors : Fields → List String → List String
contributors entity keys = contributors_from entity keys []

-- The sort keys of a release build, where the negation of the least `i64` wraps.
abbrev pub negated : ℤ → ℤ
negated n = wrap_i64 (pos 0 -ℤ n)

abbrev pub key_of : Option DateParts → ℕ × ℤ × ℤ
key_of start =
    unwrap_or (1, pos 0, pos 0)
      (start >>= λ s. s.year >>= λ y. some (0, negated y, negated (unwrap_or (pos 0) s.month)))

-- the order of tuples
abbrev pub leb_key : ℕ × ℤ × ℤ → ℕ × ℤ × ℤ → Bool
leb_key (a, y, m) (b, z, k) = ltb a b || (a == b && (ltb_ℤ y z || (y == z && leb_ℤ m k)))

unfoldable pub sort_key : Option DateRange → ℕ × ℤ × ℤ
sort_key dates = key_of (dates >>= λ d. d.start)

abbrev pub experience_before : Experience → Experience → Bool
experience_before a b = leb_key (sort_key a.dates) (sort_key b.dates)

abbrev pub education_before : Education → Education → Bool
education_before a b = leb_key (sort_key a.dates) (sort_key b.dates)

abbrev pub is_position : Fields → Bool
is_position entity = is_some (text_of entity "title") || is_some (text_of entity "companyName")

abbrev pub is_schooling : Fields → Bool
is_schooling e =
    is_some (lookup "schoolName" e)
    || is_some (lookup "school" e)
    || is_some (lookup "degreeName" e)
    || is_some (lookup "schoolUrn" e)

module _ (platform : Platform) where
  -- of the fields of an entity, and the object under `company`
  abbrev company_of : Fields → Option Fields → Option Organization
  company_of entity company =
      let url = company >>= λ c. text_of c "url" in
      let name =
        or_option (text_of entity "companyName")
          (company >>= λ c. first_text_of c ("name" ∷ "defaultLocalizedName" ∷ [])) in
      let urn = or_option (company >>= lookup "entityUrn") (lookup "companyUrn" entity) >>= λ v.
      normalise_urn v "organization" in
      let logo = image platform (or_option (company >>= lookup "logo") (lookup "logo" entity)) in
      let universal_name = url >>= universal_name_of in
      if is_none name && is_none url && is_none logo && is_none urn
      then none
      else some (record {
        name = name;
        urn = urn;
        universal_name = universal_name;
        linkedin_url = or_option url (map_option company_url universal_name);
        logo = logo;
      })

  unfoldable pub company : Fields → Option Organization
  company entity = company_of entity (lookup "company" entity >>= as_object)

  abbrev school_of : Fields → Option Fields → Option Organization
  school_of entity school =
      organization
        (or_option (text_of entity "schoolName")
          (school >>= λ s. first_text_of s ("name" ∷ "defaultLocalizedName" ∷ [])))
        (or_option (school >>= lookup "entityUrn") (lookup "schoolUrn" entity) >>= λ v.
          normalise_urn v "school")
        none none (image platform (or_option (school >>= lookup "logo") (lookup "logo" entity)))

  unfoldable pub school : Fields → Option Organization
  school entity = school_of entity (lookup "school" entity >>= as_object)

  abbrev employment_type : Fields → Option Value
  employment_type entity =
      or_option (lookup "employmentType" entity)
        (map_option Json.string (lookup "employmentTypeUrn" entity >>= as_str >>= urn_id))

  abbrev pub experience_item : ℤ × ℤ → Fields → Experience
  experience_item now entity = record {
    title = text_of entity "title";
    employment_type = employment_type entity >>= enum_label platform;
    company = company entity;
    location = first_text_of entity ("locationName" ∷ "geoLocationName" ∷ []);
    description = text_of entity "description";
    dates = date_range entity now true;
    skills = [];
  }

  unfoldable pub experience : List Fields → ℤ × ℤ → List Experience
  experience positions now =
      sort_by experience_before (map (experience_item now) (filter is_position positions))

  abbrev pub education_item : ℤ × ℤ → Fields → Education
  education_item now entity = record {
    school = school entity;
    degree = text_of entity "degreeName";
    field_of_study = text_of entity "fieldOfStudy";
    grade = text_of entity "grade";
    activities = text_of entity "activities";
    description = text_of entity "description";
    dates = date_range entity now true;
  }

  unfoldable pub education : List Fields → ℤ × ℤ → List Education
  education items now =
      sort_by education_before (map (education_item now) (filter is_schooling items))

  -- line for line the loop of the legacy parser
  unfoldable pub skills : List Fields → List Skill
  skills items = parse_skill_elements platform items
