-- ===== src/Parser/Assembler.antt =====
-- src/parser/assembler.rs: from the payloads to a draft, and from a draft to the published profile.
pub mod Drafts
pub mod Profiles
use linkex.Shared.{
  ℕ, ◌+◌, ◌*◌, ◌/◌, String, Bool, true, false, ◌||◌, Option, none, some, List, [], ◌∷◌, ◌==◌,
  string_eq, is_some, is_none, or_option, length, if◌then◌else◌,
}
use linkex.Shared.Int.{ℤ, pos}
use linkex.Shared.Options.{◌>>=◌, find_map, map_option, unwrap_or}
use linkex.Shared.Text.{◌&◌}
use linkex.Json
use linkex.Json.{Value, Fields, lookup, as_object}
use linkex.Domain.{Profile, ProfileMeta, SourceCall}
use linkex.Draft.{
  ProfileDraft, Identity, Sections, is_populated, populated, section_fields, adopt_skills,
  fill_network, merge_contact,
}
use linkex.Parser.{Platform}
use linkex.Parser.Contact.{parse_contact_info}
use linkex.Parser.Labels.{elements}
use linkex.Parser.Legacy.{parse_identity, parse_network}
use linkex.Parser.Legacy.Views.{
  parse_experience, parse_education, parse_skills, parse_skill_elements, parse_certifications,
  parse_languages, parse_projects, parse_publications, parse_honors, parse_volunteering,
  parse_courses, parse_patents, parse_test_scores, parse_organizations,
}
use linkex.Parser.Dash.Document.{DashProfileDocument, parse_dash_profile}

abbrev pub if_populated : ProfileDraft → Option ProfileDraft
if_populated d = if is_populated d then some d else none

abbrev pub dash_names : List String
dash_names = "dashProfile" ∷ "dashProfileMinimal" ∷ "graphqlProfile" ∷ []

abbrev pub dash_draft : String → DashProfileDocument → ProfileDraft
dash_draft strategy parsed = record {
  identity = parsed.identity;
  sections = parsed.sections;
  network = parsed.network;
  contact = parsed.contact;
  strategy = strategy;
}

module _ (platform : Platform) where
  abbrev legacy_sections : Fields → ℤ × ℤ → Sections
  legacy_sections view now = record {
    experience = parse_experience platform view now;
    education = parse_education platform view now;
    skills = parse_skills platform view;
    certifications = parse_certifications platform view now;
    languages = parse_languages platform view;
    projects = parse_projects view now;
    publications = parse_publications view;
    honors = parse_honors view;
    volunteering = parse_volunteering platform view now;
    courses = parse_courses view;
    patents = parse_patents view;
    test_scores = parse_test_scores view;
    organizations = parse_organizations view now;
  }

  abbrev pub legacy_draft : Fields → Fields → ℤ × ℤ → ProfileDraft
  legacy_draft view core now = record {
    identity = parse_identity platform ((lookup "profile" view >>= as_object) ∷ some core ∷ []);
    sections = legacy_sections view now;
    network = none;
    contact = none;
    strategy = "profileView";
  }

  abbrev legacy_from : Option Fields → Option Fields → ℤ × ℤ → Option ProfileDraft
  legacy_from view core now =
      if is_some (view >>= lookup "profile") || is_some core
      then if_populated (legacy_draft (unwrap_or Json.end view) (unwrap_or Json.end core) now)
      else none

  unfoldable pub draft_from_legacy : Option Value → Option Value → ℤ × ℤ → Option ProfileDraft
  draft_from_legacy profile_view core now =
      legacy_from (profile_view >>= as_object) (core >>= as_object) now

  unfoldable pub draft_from_dash : Option Value → String → ℤ × ℤ → Option ProfileDraft
  draft_from_dash payload strategy now =
      payload >>= (λ v. parse_dash_profile platform v now) >>= λ parsed.
      if_populated (dash_draft strategy parsed)

  -- one round of the loop over the names
  abbrev pub dash_attempt : Fields → ℤ × ℤ → String → Option ProfileDraft
  dash_attempt payloads now name = draft_from_dash (lookup name payloads) name now

  unfoldable pub draft_from_payloads : Fields → ℤ × ℤ → Option ProfileDraft
  draft_from_payloads payloads now =
      or_option (find_map (dash_attempt payloads now) dash_names)
        (draft_from_legacy (lookup "profileView" payloads) (lookup "profile" payloads) now)

  abbrev pub dedicated : Fields → List Fields
  dedicated payloads =
      unwrap_or []
        (map_option (λ p. elements p "elements") (lookup "skills" payloads >>= as_object))

  abbrev pub with_skills : Fields → ProfileDraft → ProfileDraft
  with_skills payloads d = record d {
    sections = adopt_skills (parse_skill_elements platform (dedicated payloads)) d.sections;
  }

  unfoldable pub enrich : Fields → ProfileDraft → ProfileDraft
  enrich payloads d =
      merge_contact
        (or_option (lookup "contactInfo" payloads) (lookup "dashContactInfo" payloads)
          >>= parse_contact_info platform)
        (fill_network (lookup "networkInfo" payloads >>= as_object >>= parse_network)
          (with_skills payloads d))

-- The share of sections that are populated, to three decimals; no share ends in half of one.
unfoldable pub completeness : ℕ → ℤ
completeness n = pos ((n * 2000 + 13) / 26 * 1000000)

abbrev profile_url_of : Option String → String → String
profile_url_of (some id) canonical = "https://www.linkedin.com/in/" & id & "/"
profile_url_of none canonical = canonical

abbrev public_id : Option String → String → String → Option String
public_id found identifier kind =
    or_option found (if kind == "vanity" then some identifier else none)

unfoldable pub build_profile :
    String → String → String → ProfileDraft → List SourceCall → List String → ℤ → Profile
build_profile identifier kind canonical draft sources warnings now =
    let identity = draft.identity in
    let sections = draft.sections in
    let public_identifier = public_id identity.public_identifier identifier kind in
    record {
      profile_url = profile_url_of public_identifier canonical;
      public_identifier = public_identifier;
      member_urn = identity.member_urn;
      profile_id = identity.profile_id;
      first_name = identity.first_name;
      last_name = identity.last_name;
      full_name = identity.full_name;
      headline = identity.headline;
      about = identity.about;
      industry = identity.industry;
      pronouns = identity.pronouns;
      location = identity.location;
      profile_picture = identity.profile_picture;
      background_picture = identity.background_picture;
      network = draft.network;
      contact = draft.contact;
      experience = sections.experience;
      education = sections.education;
      skills = sections.skills;
      certifications = sections.certifications;
      languages = sections.languages;
      projects = sections.projects;
      publications = sections.publications;
      honors = sections.honors;
      volunteering = sections.volunteering;
      courses = sections.courses;
      patents = sections.patents;
      test_scores = sections.test_scores;
      organizations = sections.organizations;
      meta = record {
        fetched_at = now;
        sources = sources;
        warnings = warnings;
        sections_populated = populated sections;
        completeness = completeness (length (populated sections));
      };
    }
