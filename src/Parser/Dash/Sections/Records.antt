-- ===== src/Parser/Dash/Sections/Records.antt =====
-- src/parser/dash.rs: the sections that keep the order of their entities.
use linkex.Shared.{String, Bool, true, false, List, [], ◌∷◌, map, is_some, or_option}
use linkex.Shared.Int.{ℤ}
use linkex.Shared.Options.{◌>>=◌, filter}
use linkex.Json.{Fields, lookup}
use linkex.Domain.{
  Certification, Course, Honor, Language, OrganizationMembership, Patent, Project, Publication,
  TestScore, VolunteerExperience,
}
use linkex.Parser.{Platform}
use linkex.Parser.Texts.{text_of, first_text_of}
use linkex.Parser.Labels.{enum_label}
use linkex.Parser.Legacy.{as_bool}
use linkex.Parser.Dash.Sections.{company, date_range, single_date, contributors}

-- entities with a name
abbrev has_name : Fields → Bool
has_name e = is_some (text_of e "name")

abbrev named_among : List String → Fields → Bool
named_among keys e = is_some (first_text_of e keys)

module _ (platform : Platform) where
  unfoldable pub certifications : List Fields → ℤ × ℤ → List Certification
  certifications items now =
      map
        (λ entity. record {
          name = text_of entity "name";
          authority = text_of entity "authority";
          license_number = text_of entity "licenseNumber";
          url = text_of entity "url";
          company = company platform entity;
          dates = date_range entity now false;
        })
        (filter has_name items)

  unfoldable pub languages : List Fields → List Language
  languages items =
      map
        (λ entity. record {
          name = text_of entity "name";
          proficiency = lookup "proficiency" entity >>= enum_label platform;
        })
        (filter has_name items)

  unfoldable pub volunteering : List Fields → ℤ × ℤ → List VolunteerExperience
  volunteering items now =
      map
        (λ entity. record {
          role = text_of entity "role";
          organization =
              or_option (company platform entity >>= λ c. c.name) (text_of entity "companyName");
          cause = lookup "cause" entity >>= enum_label platform;
          description = text_of entity "description";
          dates = date_range entity now true;
        })
        items

unfoldable pub projects : List Fields → ℤ × ℤ → List Project
projects items now =
    map
      (λ entity. record {
        title = first_text_of entity ("title" ∷ "name" ∷ []);
        description = text_of entity "description";
        url = text_of entity "url";
        dates = date_range entity now true;
        contributors = contributors entity ("contributors" ∷ "members" ∷ []);
      })
      (filter (named_among ("title" ∷ "name" ∷ [])) items)

unfoldable pub publications : List Fields → List Publication
publications items =
    map
      (λ entity. record {
        name = first_text_of entity ("name" ∷ "title" ∷ []);
        publisher = text_of entity "publisher";
        description = text_of entity "description";
        url = text_of entity "url";
        published_on = single_date entity ("publishedOn" ∷ "date" ∷ []);
        authors = contributors entity ("authors" ∷ "contributors" ∷ []);
      })
      (filter (named_among ("name" ∷ "title" ∷ [])) items)

unfoldable pub honors : List Fields → List Honor
honors items =
    map
      (λ entity. record {
        title = first_text_of entity ("title" ∷ "name" ∷ []);
        issuer = text_of entity "issuer";
        description = text_of entity "description";
        issued_on = single_date entity ("issuedOn" ∷ "issueDate" ∷ []);
      })
      (filter (named_among ("title" ∷ "name" ∷ [])) items)

unfoldable pub courses : List Fields → List Course
courses items =
    map (λ entity. record { name = text_of entity "name"; number = text_of entity "number" })
      (filter has_name items)

unfoldable pub patents : List Fields → List Patent
patents items =
    map
      (λ entity. record {
        title = text_of entity "title";
        number = first_text_of entity ("number" ∷ "applicationNumber" ∷ []);
        description = text_of entity "description";
        url = text_of entity "url";
        issued_on = single_date entity ("issuedOn" ∷ "issueDate" ∷ "filingDate" ∷ []);
        pending = lookup "pending" entity >>= as_bool;
      })
      items

unfoldable pub test_scores : List Fields → List TestScore
test_scores items =
    map
      (λ entity. record {
        name = text_of entity "name";
        score = text_of entity "score";
        description = text_of entity "description";
        taken_on = single_date entity ("takenOn" ∷ "date" ∷ []);
      })
      (filter has_name items)

unfoldable pub organizations : List Fields → ℤ × ℤ → List OrganizationMembership
organizations items now =
    map
      (λ entity. record {
        name = text_of entity "name";
        position = text_of entity "position";
        description = text_of entity "description";
        dates = date_range entity now true;
      })
      (filter has_name items)
