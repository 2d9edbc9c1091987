-- ===== src/Session/Persistence.antt =====
-- What is saved of a session is what is loaded.
use linkex.Shared.{ℕ, String, ◌≡◌, refl, true, Option, none, some, [], ◌∷◌, nat_eq, string_eq}
use linkex.Shared.Options.{map_option}
use linkex.Json.{lookup, as_str}
use linkex.Session.{
  Cookies, LinkedInSession, restored, li_at, cookie_fields, load_cookies, seconds_value, text_value,
  epoch_of, is_time, loaded, save_payload, load_payload,
}

load_cookies-cookie_fields : (cookies : Cookies) → load_cookies (cookie_fields cookies) ≡ cookies
unfolding load_cookies cookie_fields
load_cookies-cookie_fields [] = refl
load_cookies-cookie_fields ((name, value) ∷ cookies) = rw (load_cookies-cookie_fields cookies)

epoch_of-seconds_value :
    (nearest : ℕ → ℕ) (o : Option ℕ)
    → epoch_of nearest (seconds_value nearest o) ≡ map_option nearest o
unfolding epoch_of seconds_value
epoch_of-seconds_value nearest none = refl
epoch_of-seconds_value nearest (some t) = refl

as_str-text_value : (o : Option String) → as_str (text_value o) ≡ o
unfolding text_value
as_str-text_value none = refl
as_str-text_value (some s) = refl

-- A session with an auth cookie whose times the clock can tell, saved and loaded whenever, is the
-- session itself, marked as restored, with its times at the precision of an `f64`.
pub load-save :
    (nearest : ℕ → ℕ) (now : ℕ) (s : LinkedInSession) {value : String}
    → li_at s ≡ some value
    → is_time (some (nearest s.created_at)) ≡ true
    → is_time (map_option nearest s.last_validated_at) ≡ true
    → load_payload nearest now (save_payload nearest s)
      ≡ loaded (record s {
        source = restored;
        created_at = nearest s.created_at;
        last_validated_at = map_option nearest s.last_validated_at;
      })
unfolding load_payload save_payload lookup
load-save nearest now s h created validated = rw (
  load_cookies-cookie_fields s.cookies,
  epoch_of-seconds_value nearest s.last_validated_at,
  as_str-text_value s.member_urn,
  h,
  created,
  validated,
)
