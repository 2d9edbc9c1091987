-- ===== src/Endpoints/Examples.antt =====
-- Paths of concrete requests.
use linkex.Shared.{◌-◌, ◌/◌, ◌%◌, ◌≡◌, refl, true, arith, nat_eq, string_eq}
use linkex.Shared.Text.{all_chars, decimal, char_or}
use linkex.Endpoints.{
  profile_view, dash_profile, dash_contact_info, seg, fsd_urn, is_unreserved, utf8, percent_all,
  nibble,
}
use linkex.Urls.Decoding.{as_bytes}
use linkex.Endpoints.Spelled.{is_safe, Spells}
use linkex.Endpoints.Safety.{seg-safe}

profile_view_example :
    (profile_view "Ada Lovelace").path ≡ "/voyager/api/identity/profiles/Ada%20Lovelace/profileView"
unfolding profile_view seg is_unreserved linkex.Endpoints.percent_all linkex.Endpoints.utf8
    linkex.Endpoints.nibble linkex.Shared.Text.char_or
profile_view_example = refl

seg_example : seg "über/dev" ≡ "%C3%BCber%2Fdev"
unfolding seg is_unreserved utf8 percent_all nibble char_or
seg_example = refl

dash_contact_info_example :
    (dash_contact_info "ACoA-x").path
    ≡ "/voyager/api/identity/dash/profiles/urn%3Ali%3Afsd_profile%3AACoA-x"
unfolding dash_contact_info seg fsd_urn is_unreserved linkex.Endpoints.percent_all
    linkex.Endpoints.utf8 linkex.Endpoints.nibble linkex.Shared.Text.char_or
dash_contact_info_example = refl

decimal_example : decimal 1024 ≡ "1024"
unfolding decimal char_or
decimal_example = refl

seg-safe_example :
    (all_chars is_safe (seg "a/b?c#d") ≡ true) × Spells (seg "a/b?c#d") (as_bytes "a/b?c#d")
seg-safe_example = seg-safe "a/b?c#d"
