-- ===== src/Parser/Organizations.antt =====
-- src/parser/common.rs: companies and schools.
use linkex.Shared.{String, ◌&&◌, Option, none, some, [], ◌∷◌, is_none, or_option, if◌then◌else◌}
use linkex.Shared.Options.{◌>>=◌, map_option}
use linkex.Shared.Text.{◌&◌}
use linkex.Json.{Value, Fields, lookup, as_object}
use linkex.Domain.{ImageSet, Organization}
use linkex.Parser.{Platform}
use linkex.Parser.Texts.{text_of, first_text_of, normalise_urn}
use linkex.Parser.Images.{parse_vector_image}

abbrev pub company_url : String → String
company_url universal_name = "https://www.linkedin.com/company/" & universal_name

-- An organization without a name, a URN and a logo is none.
unfoldable pub organization :
    Option String
    → Option String
    → Option String
    → Option String
    → Option ImageSet
    → Option Organization
organization name urn universal_name linkedin_url logo =
    if is_none name && is_none urn && is_none logo
    then none
    else some (record {
      name = name;
      urn = urn;
      universal_name = universal_name;
      linkedin_url = linkedin_url;
      logo = logo;
    })

module _ (platform : Platform) where
  abbrev company_of : Fields → Option Fields → Option Organization
  company_of obj mini =
      let universal_name = mini >>= λ m. text_of m "universalName" in
      organization
        (or_option (mini >>= λ m. first_text_of m ("name" ∷ "companyName" ∷ []))
          (first_text_of obj ("companyName" ∷ "name" ∷ [])))
        (or_option (mini >>= lookup "entityUrn") (lookup "companyUrn" obj) >>= λ v.
          normalise_urn v "organization")
        universal_name (map_option company_url universal_name)
        (or_option (mini >>= lookup "logo") (lookup "logo" obj) >>= parse_vector_image platform)

  unfoldable pub parse_company : Value → Option Organization
  parse_company payload =
      as_object payload >>= λ obj. company_of obj (lookup "miniCompany" obj >>= as_object)

  abbrev school_of : Option Fields → Option String → Option Organization
  school_of obj fallback_name =
      organization
        (or_option (obj >>= λ o. first_text_of o ("schoolName" ∷ "name" ∷ [])) fallback_name)
        (obj >>= (λ o. or_option (lookup "entityUrn" o) (lookup "objectUrn" o)) >>= λ v.
          normalise_urn v "school")
        none none (obj >>= lookup "logo" >>= parse_vector_image platform)

  unfoldable pub parse_school : Value → Option String → Option Organization
  parse_school payload fallback_name = school_of (as_object payload) fallback_name
