-- ===== src/Draft.antt =====
-- src/parser/draft.rs: the draft of a profile that both parsers produce, and how later calls add to
-- it.
pub mod Merging
mod Examples
use linkex.Shared.{
  suc, ◌+◌, ◌-◌, ◌≤◌, String, Bool, not, ◌||◌, Option, none, some, List, [], ◌∷◌, ◌++◌, arith,
  nat_eq, string_eq, if◌then◌else◌, is_some, is_empty, contains,
}
use linkex.Shared.Int.{
  ℤ, pos, negsuc, pos_part, neg_part, sub_ℕ, ◌+ℤ◌, ◌-ℤ◌, ◌≤ℤ◌, ltb_ℤ, leb_ℤ, int_eq, +ℤ_parts,
  -ℤ_parts, eq_of_parts, int_laws,
}
use linkex.Domain.{
  Certification, ContactInfo, Course, Education, Experience, Honor, ImageSet, Language, Location,
  NetworkInfo, OrganizationMembership, Patent, Project, Publication, Skill, TestScore,
  VolunteerExperience, DateParts,
}

abbrev pub section_fields : List String
section_fields =
    "experience" ∷ "education" ∷ "skills" ∷ "certifications" ∷ "languages" ∷ "projects"
    ∷ "publications" ∷ "honors" ∷ "volunteering" ∷ "courses" ∷ "patents" ∷ "test_scores"
    ∷ "organizations" ∷ []

pub record Identity : Type 0 where
  pub first_name : Option String
  pub last_name : Option String
  pub full_name : Option String
  pub headline : Option String
  pub about : Option String
  pub industry : Option String
  pub pronouns : Option String
  pub public_identifier : Option String
  pub member_urn : Option String
  pub profile_id : Option String
  pub location : Option Location
  pub profile_picture : Option ImageSet
  pub background_picture : Option ImageSet

pub record Sections : Type 0 where
  pub experience : List Experience
  pub education : List Education
  pub skills : List Skill
  pub certifications : List Certification
  pub languages : List Language
  pub projects : List Project
  pub publications : List Publication
  pub honors : List Honor
  pub volunteering : List VolunteerExperience
  pub courses : List Course
  pub patents : List Patent
  pub test_scores : List TestScore
  pub organizations : List OrganizationMembership

-- the array that is zipped with the names
abbrev pub filled : Sections → List Bool
filled s =
    not (is_empty s.experience)
    ∷ not (is_empty s.education)
    ∷ not (is_empty s.skills)
    ∷ not (is_empty s.certifications)
    ∷ not (is_empty s.languages)
    ∷ not (is_empty s.projects)
    ∷ not (is_empty s.publications)
    ∷ not (is_empty s.honors)
    ∷ not (is_empty s.volunteering)
    ∷ not (is_empty s.courses)
    ∷ not (is_empty s.patents)
    ∷ not (is_empty s.test_scores)
    ∷ not (is_empty s.organizations)
    ∷ []

-- `zip`, `filter` and `map`
unfoldable pub names_of : List String → List Bool → List String
names_of [] flags = []
names_of (name ∷ names) [] = []
names_of (name ∷ names) (flag ∷ flags) =
    let rest = names_of names flags in if flag then name ∷ rest else rest

unfoldable pub populated : Sections → List String
populated s = names_of section_fields (filled s)

unfoldable pub is_any_populated : Sections → Bool
is_any_populated s = not (is_empty (populated s))

unfoldable pub adopt_skills : List Skill → Sections → Sections
adopt_skills skills s = if is_empty skills then s else record s { skills = skills }

pub record ProfileDraft : Type 0 where
  pub identity : Identity
  pub sections : Sections
  pub network : Option NetworkInfo
  pub contact : Option ContactInfo
  pub strategy : String

unfoldable pub is_populated : ProfileDraft → Bool
is_populated d =
    is_some d.identity.full_name
    || is_some d.identity.headline
    || is_some d.identity.public_identifier
    || is_any_populated d.sections

unfoldable pub merge_lists : List String → List String → List String
merge_lists merged [] = merged
merge_lists merged (item ∷ incoming) =
    merge_lists (if contains item merged then merged else merged ++ item ∷ []) incoming

-- `if existing.is_none() { … = incoming }`
abbrev pub or_else {ℓ} : {A : Type ℓ} → Option A → Option A → Option A
or_else none incoming = incoming
or_else (some existing) incoming = some existing

unfoldable pub merge_cards : ContactInfo → ContactInfo → ContactInfo
merge_cards existing contact = record {
  websites = merge_lists existing.websites contact.websites;
  emails = merge_lists existing.emails contact.emails;
  phone_numbers = merge_lists existing.phone_numbers contact.phone_numbers;
  twitter_handles = merge_lists existing.twitter_handles contact.twitter_handles;
  ims = merge_lists existing.ims contact.ims;
  birthday = or_else existing.birthday contact.birthday;
  address = or_else existing.address contact.address;
}

merged_contact : Option ContactInfo → ContactInfo → ContactInfo
merged_contact none contact = contact
merged_contact (some existing) contact = merge_cards existing contact

unfoldable pub merge_contact : Option ContactInfo → ProfileDraft → ProfileDraft
unfolding merged_contact
merge_contact none d = d
merge_contact (some contact) d = record d { contact = some (merged_contact d.contact contact) }

unfoldable pub fill_missing : NetworkInfo → NetworkInfo → NetworkInfo
fill_missing existing network = record {
  followers = or_else existing.followers network.followers;
  connections = or_else existing.connections network.connections;
  distance = or_else existing.distance network.distance;
  following = or_else existing.following network.following;
}

filled_network : Option NetworkInfo → NetworkInfo → NetworkInfo
filled_network none network = network
filled_network (some existing) network = fill_missing existing network

unfoldable pub fill_network : Option NetworkInfo → ProfileDraft → ProfileDraft
unfolding filled_network
fill_network none d = d
fill_network (some network) d = record d { network = some (filled_network d.network network) }
