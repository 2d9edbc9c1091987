-- ===== src/Parser/Legacy/Views.antt =====
-- src/parser/legacy.rs: the sections of a `profileView`.
use linkex.Shared.{
  String, Bool, true, false, not, Option, none, some, List, [], ◌∷◌, map, ◌==◌, string_eq, contains,
  or_option, if◌then◌else◌,
}
use linkex.Shared.Int.{ℤ, pos, int_eq}
use linkex.Shared.Options.{◌>>=◌, filter_option, unwrap_or}
use linkex.Json
use linkex.Json.{Value, Fields, lookup, null}
use linkex.Domain.{
  Certification, Course, Education, Experience, Honor, Language, OrganizationMembership, Patent,
  Project, Publication, Skill, TestScore, VolunteerExperience, DateRange,
}
use linkex.Parser.{Platform}
use linkex.Parser.Texts.{integer, text_of, first_text_of, field_or_null}
use linkex.Parser.Dates.{parse_date, parse_time_period}
use linkex.Parser.Organizations.{parse_company, parse_school}
use linkex.Parser.Labels.{elements, enum_label}
use linkex.Parser.Legacy.{as_bool, contributor_names}

abbrev period : ℤ × ℤ → Bool → Fields → Option DateRange
period now open_ended element =
    parse_time_period (field_or_null "timePeriod" element) open_ended now

-- The count of a skill: zero counts as absent.
abbrev pub endorsements : Fields → Option ℤ
endorsements element = integer (
    unwrap_or null (
      or_option (filter_option (λ v. not (is_zero (integer v))) (lookup "endorsementCount" element))
        (lookup "numEndorsements" element)))
  where
    is_zero : Option ℤ → Bool
    is_zero none = false
    is_zero (some n) = n == pos 0

module _ (platform : Platform) where
  -- the set `seen`, after a name in lower case
  abbrev pub seen_with : String → List String → List String
  seen_with lowered seen = if contains lowered seen then seen else lowered ∷ seen

  abbrev pub seen_after : Option String → List String → List String
  seen_after none seen = seen
  seen_after (some name) seen = seen_with (platform.to_lowercase name) seen

  -- What an element adds in front of the skills after it.
  abbrev pub keep_skill : Fields → Option String → List String → List Skill → List Skill
  keep_skill element none seen later = later
  keep_skill element (some name) seen later =
      if contains (platform.to_lowercase name) seen
      then later
      else record { name = name; endorsement_count = endorsements element } ∷ later

  unfoldable pub skills_from : List Fields → List String → List Skill
  skills_from [] seen = []
  skills_from (element ∷ items) seen =
      keep_skill element (text_of element "name") seen
        (skills_from items (seen_after (text_of element "name") seen))

  unfoldable pub parse_skill_elements : List Fields → List Skill
  parse_skill_elements items = skills_from items []

  unfoldable pub parse_skills : Fields → List Skill
  parse_skills profile_view = parse_skill_elements (elements profile_view "skillView")

  -- the `company` of a position, or one that is made of its other fields
  abbrev company_value : Fields → Value
  company_value element =
      unwrap_or
        (Json.object (
          Json.field "companyName" (field_or_null "companyName" element)
            (Json.field "companyUrn" (field_or_null "companyUrn" element) Json.end)))
        (lookup "company" element)

  unfoldable pub parse_experience : Fields → ℤ × ℤ → List Experience
  parse_experience profile_view now =
      map
        (λ element. record {
          title = text_of element "title";
          employment_type = lookup "employmentType" element >>= enum_label platform;
          company = parse_company platform (company_value element);
          location = first_text_of element ("locationName" ∷ "geoLocationName" ∷ []);
          description = text_of element "description";
          dates = period now true element;
          skills = [];
        })
        (elements profile_view "positionView")

  unfoldable pub parse_education : Fields → ℤ × ℤ → List Education
  parse_education profile_view now =
      map
        (λ element. record {
          school =
              parse_school platform (field_or_null "school" element) (text_of element "schoolName");
          degree = text_of element "degreeName";
          field_of_study = text_of element "fieldOfStudy";
          grade = text_of element "grade";
          activities = text_of element "activities";
          description = text_of element "description";
          dates = period now true element;
        })
        (elements profile_view "educationView")

  unfoldable pub parse_certifications : Fields → ℤ × ℤ → List Certification
  parse_certifications profile_view now =
      map
        (λ element. record {
          name = text_of element "name";
          authority = text_of element "authority";
          license_number = text_of element "licenseNumber";
          url = text_of element "url";
          company = lookup "company" element >>= parse_company platform;
          dates = period now false element;
        })
        (elements profile_view "certificationView")

  unfoldable pub parse_languages : Fields → List Language
  parse_languages profile_view =
      map
        (λ element. record {
          name = text_of element "name";
          proficiency = lookup "proficiency" element >>= enum_label platform;
        })
        (elements profile_view "languageView")

  unfoldable pub parse_volunteering : Fields → ℤ × ℤ → List VolunteerExperience
  parse_volunteering profile_view now =
      map
        (λ element. record {
          role = text_of element "role";
          organization = text_of element "companyName";
          cause = lookup "cause" element >>= enum_label platform;
          description = text_of element "description";
          dates = period now true element;
        })
        (elements profile_view "volunteerExperienceView")

unfoldable pub parse_projects : Fields → ℤ × ℤ → List Project
parse_projects profile_view now =
    map
      (λ element. record {
        title = text_of element "title";
        description = text_of element "description";
        url = text_of element "url";
        dates = period now true element;
        contributors = contributor_names (field_or_null "members" element);
      })
      (elements profile_view "projectView")

unfoldable pub parse_publications : Fields → List Publication
parse_publications profile_view =
    map
      (λ element. record {
        name = text_of element "name";
        publisher = text_of element "publisher";
        description = text_of element "description";
        url = text_of element "url";
        published_on = lookup "date" element >>= parse_date;
        authors = contributor_names (field_or_null "authors" element);
      })
      (elements profile_view "publicationView")

unfoldable pub parse_honors : Fields → List Honor
parse_honors profile_view =
    map
      (λ element. record {
        title = text_of element "title";
        issuer = text_of element "issuer";
        description = text_of element "description";
        issued_on = lookup "issueDate" element >>= parse_date;
      })
      (elements profile_view "honorView")

unfoldable pub parse_courses : Fields → List Course
parse_courses profile_view =
    map (λ element. record { name = text_of element "name"; number = text_of element "number" })
      (elements profile_view "courseView")

unfoldable pub parse_patents : Fields → List Patent
parse_patents profile_view =
    map
      (λ element. record {
        title = text_of element "title";
        number = first_text_of element ("number" ∷ "applicationNumber" ∷ []);
        description = text_of element "description";
        url = text_of element "url";
        issued_on =
            or_option (lookup "issueDate" element) (lookup "filingDate" element) >>= parse_date;
        pending = lookup "pending" element >>= as_bool;
      })
      (elements profile_view "patentView")

unfoldable pub parse_test_scores : Fields → List TestScore
parse_test_scores profile_view =
    map
      (λ element. record {
        name = text_of element "name";
        score = text_of element "score";
        description = text_of element "description";
        taken_on = lookup "date" element >>= parse_date;
      })
      (elements profile_view "testScoreView")

unfoldable pub parse_organizations : Fields → ℤ × ℤ → List OrganizationMembership
parse_organizations profile_view now =
    map
      (λ element. record {
        name = text_of element "name";
        position = text_of element "position";
        description = text_of element "description";
        dates = period now true element;
      })
      (elements profile_view "organizationView")
