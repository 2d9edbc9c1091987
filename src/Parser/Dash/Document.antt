-- ===== src/Parser/Dash/Document.antt =====
-- src/parser/dash.rs: `parse_dash_profile`.
use linkex.Shared.{Option}
use linkex.Shared.Int.{ℤ}
use linkex.Shared.Options.{map_option}
use linkex.Json.{Value}
use linkex.Domain.{ContactInfo, NetworkInfo}
use linkex.Draft
use linkex.Parser.{Platform}
use linkex.Parser.Dash.{Extracted, extract, entities_of}
use linkex.Parser.Dash.Identity.{identity, network, contact_from_profile}
use linkex.Parser.Dash.Positions.{flatten_positions}
use linkex.Parser.Dash.Sections.{experience, education, skills}
use linkex.Parser.Dash.Sections.Records.{
  certifications, languages, volunteering, projects, publications, honors, courses, patents,
  test_scores, organizations,
}

pub record DashProfileDocument : Type 0 where
  pub identity : Draft.Identity
  pub sections : Draft.Sections
  pub network : Option NetworkInfo
  pub contact : Option ContactInfo

module _ (platform : Platform) where
  abbrev pub dash_sections : Extracted → ℤ × ℤ → Draft.Sections
  dash_sections x now = record {
    experience = experience platform (flatten_positions x.collections x.env) now;
    education = education platform (entities_of x "profileEducations") now;
    skills = skills platform (entities_of x "profileSkills");
    certifications = certifications platform (entities_of x "profileCertifications") now;
    languages = languages platform (entities_of x "profileLanguages");
    projects = projects (entities_of x "profileProjects") now;
    publications = publications (entities_of x "profilePublications");
    honors = honors (entities_of x "profileHonors");
    volunteering = volunteering platform (entities_of x "profileVolunteerExperiences") now;
    courses = courses (entities_of x "profileCourses");
    patents = patents (entities_of x "profilePatents");
    test_scores = test_scores (entities_of x "profileTestScores");
    organizations = organizations (entities_of x "profileOrganizations") now;
  }

  abbrev document : ℤ × ℤ → Extracted → DashProfileDocument
  document now x = record {
    identity = identity platform x.root x.env;
    sections = dash_sections x now;
    network = network x.root x.env;
    contact = contact_from_profile x.root;
  }

  unfoldable pub parse_dash_profile : Value → ℤ × ℤ → Option DashProfileDocument
  parse_dash_profile payload now = map_option (document now) (extract payload)
