-- ===== src/Domain.antt =====
-- src/domain/profile.rs: the public response schema. A point in time is a number of nanoseconds, and
-- `completeness` a number of billionths.
use linkex.Shared.{ℕ, String, Bool, Option, List}
use linkex.Shared.Int.{ℤ}

pub record DateParts : Type 0 where
  pub year : Option ℤ
  pub month : Option ℤ
  pub day : Option ℤ
  pub iso : Option String
  pub label : Option String

pub record DateRange : Type 0 where
  pub start : Option DateParts
  pub end : Option DateParts
  pub is_current : Bool
  pub duration_months : Option ℤ
  pub label : Option String

pub record ImageRendition : Type 0 where
  pub url : String
  pub width : Option ℤ
  pub height : Option ℤ
  pub expires_at : Option ℤ

pub record ImageSet : Type 0 where
  pub url : String
  pub renditions : List ImageRendition

pub record Location : Type 0 where
  pub label : Option String
  pub city : Option String
  pub country_code : Option String
  pub geo_urn : Option String
  pub postal_code : Option String

pub record Organization : Type 0 where
  pub name : Option String
  pub urn : Option String
  pub universal_name : Option String
  pub linkedin_url : Option String
  pub logo : Option ImageSet

pub record Experience : Type 0 where
  pub title : Option String
  pub employment_type : Option String
  pub company : Option Organization
  pub location : Option String
  pub description : Option String
  pub dates : Option DateRange
  pub skills : List String

pub record Education : Type 0 where
  pub school : Option Organization
  pub degree : Option String
  pub field_of_study : Option String
  pub grade : Option String
  pub activities : Option String
  pub description : Option String
  pub dates : Option DateRange

pub record Skill : Type 0 where
  pub name : String
  pub endorsement_count : Option ℤ

pub record Certification : Type 0 where
  pub name : Option String
  pub authority : Option String
  pub license_number : Option String
  pub url : Option String
  pub company : Option Organization
  pub dates : Option DateRange

pub record Language : Type 0 where
  pub name : Option String
  pub proficiency : Option String

pub record Project : Type 0 where
  pub title : Option String
  pub description : Option String
  pub url : Option String
  pub dates : Option DateRange
  pub contributors : List String

pub record Publication : Type 0 where
  pub name : Option String
  pub publisher : Option String
  pub description : Option String
  pub url : Option String
  pub published_on : Option DateParts
  pub authors : List String

pub record Honor : Type 0 where
  pub title : Option String
  pub issuer : Option String
  pub description : Option String
  pub issued_on : Option DateParts

pub record VolunteerExperience : Type 0 where
  pub role : Option String
  pub organization : Option String
  pub cause : Option String
  pub description : Option String
  pub dates : Option DateRange

pub record Course : Type 0 where
  pub name : Option String
  pub number : Option String

pub record Patent : Type 0 where
  pub title : Option String
  pub number : Option String
  pub description : Option String
  pub url : Option String
  pub issued_on : Option DateParts
  pub pending : Option Bool

pub record TestScore : Type 0 where
  pub name : Option String
  pub score : Option String
  pub description : Option String
  pub taken_on : Option DateParts

pub record OrganizationMembership : Type 0 where
  pub name : Option String
  pub position : Option String
  pub description : Option String
  pub dates : Option DateRange

pub record NetworkInfo : Type 0 where
  pub followers : Option ℤ
  pub connections : Option ℤ
  pub distance : Option String
  pub following : Option Bool

pub record ContactInfo : Type 0 where
  pub emails : List String
  pub phone_numbers : List String
  pub websites : List String
  pub twitter_handles : List String
  pub birthday : Option DateParts
  pub address : Option String
  pub ims : List String

pub record SourceCall : Type 0 where
  pub endpoint : String
  pub status_code : ℕ
  pub ok : Bool
  pub elapsed_ms : ℕ
  pub attempts : ℕ

pub record ProfileMeta : Type 0 where
  pub fetched_at : ℤ
  pub sources : List SourceCall
  pub warnings : List String
  pub sections_populated : List String
  pub completeness : ℤ

pub record Profile : Type 0 where
  pub profile_url : String
  pub public_identifier : Option String
  pub member_urn : Option String
  pub profile_id : Option String
  pub first_name : Option String
  pub last_name : Option String
  pub full_name : Option String
  pub headline : Option String
  pub about : Option String
  pub industry : Option String
  pub pronouns : Option String
  pub location : Option Location
  pub profile_picture : Option ImageSet
  pub background_picture : Option ImageSet
  pub network : Option NetworkInfo
  pub contact : Option ContactInfo
  pub experience : List Experience
  pub education : List Education
  pub skills : List Skill
  pub certifications : List Certification
  pub languages : List Language
  pub projects : List Project
  pub publications : List Publication
  pub honors : List Honor
  pub volunteering : List VolunteerExperience
  pub courses : List Course
  pub patents : List Patent
  pub test_scores : List TestScore
  pub organizations : List OrganizationMembership
  pub meta : ProfileMeta
