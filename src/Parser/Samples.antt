-- ===== src/Parser/Samples.antt =====
-- Concrete inputs: the letters of ASCII in place of the tables of Unicode, and JSON values.
use Prim.Native.Char.{Char, code}
use linkex.Shared.{ℕ, ◌-◌, String, Bool, ◌&&◌, ◌||◌, none, some, List, [], ◌∷◌, leb, if◌then◌else◌}
use linkex.Shared.Int.{ℤ, pos}
use linkex.Shared.Text.{char_or}
use linkex.Json
use linkex.Json.{Value, Fields}
use linkex.Draft.{ProfileDraft, Identity, Sections}
use linkex.Parser.{Platform}

abbrev is_upper : Char → Bool
is_upper c = leb b'A' (code c) && leb (code c) b'Z'

abbrev is_lower : Char → Bool
is_lower c = leb b'a' (code c) && leb (code c) b'z'

abbrev lower : String → String
lower String.[] = ""
lower (String.◌∷◌ c s) =
    let rest = lower s in
    if is_upper c
    then String.◌∷◌ (char_or c "abcdefghijklmnopqrstuvwxyz" (code c - b'A')) rest
    else String.◌∷◌ c rest

abbrev upper : String → String
upper String.[] = ""
upper (String.◌∷◌ c s) =
    let rest = upper s in
    if is_lower c
    then String.◌∷◌ (char_or c "ABCDEFGHIJKLMNOPQRSTUVWXYZ" (code c - b'a')) rest
    else String.◌∷◌ c rest

abbrev pub ascii : Platform
ascii = record {
  to_lowercase = lower;
  to_uppercase = upper;
  is_alphabetic = λ c. is_upper c || is_lower c;
  is_uppercase = is_upper;
  from_timestamp_millis = λ n. some n;
}

abbrev pub object_of : List (String × Value) → Value
object_of entries = Json.object (fields entries)
  where
    fields : List (String × Value) → Fields
    fields [] = Json.end
    fields ((k, v) ∷ entries) = Json.field k v (fields entries)

abbrev pub number : ℕ → Value
number n = Json.integer (pos n)

abbrev pub month : ℕ → ℕ → Value
month y m = object_of (("year", number y) ∷ ("month", number m) ∷ [])

abbrev pub now : ℤ × ℤ
now = (pos 2026, pos 8)

abbrev artifact : String → ℕ → Value
artifact path n = object_of (
    ("fileIdentifyingUrlPathSegment", Json.string path)
    ∷ ("width", number n)
    ∷ ("height", number n)
    ∷ [])

abbrev pub picture : Value
picture = object_of (
    ("rootUrl", Json.string "https://media.licdn.com/")
    ∷ (
      "artifacts",
      Json.array
          (Json.cons (artifact "a/100.jpg" 100) (Json.cons (artifact "a/800.jpg" 800) Json.nil)),
    )
    ∷ [])

abbrev nobody : Identity
nobody = record {
  first_name = none;
  last_name = none;
  full_name = none;
  headline = none;
  about = none;
  industry = none;
  pronouns = none;
  public_identifier = none;
  member_urn = none;
  profile_id = none;
  location = none;
  profile_picture = none;
  background_picture = none;
}

abbrev pub nothing : Sections
nothing = record {
  experience = [];
  education = [];
  skills = [];
  certifications = [];
  languages = [];
  projects = [];
  publications = [];
  honors = [];
  volunteering = [];
  courses = [];
  patents = [];
  test_scores = [];
  organizations = [];
}

abbrev pub ada : ProfileDraft
ada = record {
  identity = record nobody { full_name = some "Ada Lovelace" };
  sections = nothing;
  network = none;
  contact = none;
  strategy = "profileView";
}
