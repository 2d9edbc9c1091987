-- ===== src/Session/Examples.antt =====
-- Sessions, cookie headers and merges at concrete cookies.
use linkex.Shared.{
  ℕ, ◌-◌, ◌*◌, ◌/◌, ◌≡◌, refl, none, some, [], ◌∷◌, arith, ◌==◌, nat_eq, string_eq, get, insert,
}
use linkex.Session.{
  Cookies, LinkedInSession, environment, restored, li_at, jsessionid, is_tombstone, is_usable,
  signed_out, csrf_token, merge_cookies, merge_all, merge_cookie, parse_cookie_header, quote_cookie,
  save_payload, load_payload, loaded, panics,
}
use linkex.Session.Header.{IsPlain, render, parse-render}
use linkex.Shared.Text.{trim, all_chars}
use linkex.Shared.Int.{pos}
use linkex.Json.{object, field, string, integer, end}
use linkex.Session.Persistence.{load-save}

abbrev live : LinkedInSession
live = record {
  cookies = ("li_at", "AQ") ∷ ("JSESSIONID", "\"ajax:1\"") ∷ ("bcookie", "b") ∷ [];
  source = environment;
  created_at = 17;
  last_validated_at = some 18;
  member_urn = none;
}

header_example :
    parse_cookie_header "li_at=AQ; JSESSIONID = \"ajax:1\"; ;=x; li_at=AR=="
    ≡ ("li_at", "AR==") ∷ ("JSESSIONID", "\"ajax:1\"") ∷ []
unfolding parse_cookie_header insert linkex.Session.header_chunks linkex.Shared.Text.split
    linkex.Session.header_chunk linkex.Session.add_pair linkex.Shared.Text.split_once trim
header_example = refl

csrf_token_example : csrf_token live ≡ some "ajax:1"
unfolding csrf_token get linkex.Shared.Text.trim_matches
csrf_token_example = refl

quote_cookie_example :
    (quote_cookie " ajax:1 " ≡ "\"ajax:1\"") × (quote_cookie "\"ajax:1\"" ≡ "\"ajax:1\"")
unfolding quote_cookie
quote_cookie_example = (refl, refl)

-- Whole multiples of 256 billionths are left of a time.
abbrev coarse : ℕ → ℕ
coarse n = n / 256 * 256

abbrev young : LinkedInSession
young = record live { created_at = 1000; last_validated_at = some 1100 }

load-save_example :
    load_payload coarse 99 (save_payload coarse young)
    ≡ loaded (record young { source = restored; created_at = 768; last_validated_at = some 1024 })
unfolding get
load-save_example = load-save coarse 99 young refl refl refl

-- A number of seconds in the file that no clock can tell is a panic.
load_panics :
    load_payload coarse 99 (
      object (
        field "cookies"
          (object (field "li_at" (string "AQ") end))
          (field "created_at" (integer (pos 18446744073709551616)) end)))
    ≡ panics
unfolding get load_payload linkex.Json.lookup
load_panics = refl

abbrev plain_pair : Cookies
plain_pair = ("li_at", "AQ==") ∷ ("JSESSIONID", "\"ajax:1\"") ∷ []

auth-IsPlain : IsPlain ("li_at", "AQ==")
unfolding trim all_chars
auth-IsPlain = record {
  name_trimmed = refl;
  named = refl;
  name_equals = refl;
  name_semicolon = refl;
  value_trimmed = refl;
  value_semicolon = refl;
}

csrf-IsPlain : IsPlain ("JSESSIONID", "\"ajax:1\"")
unfolding trim all_chars
csrf-IsPlain = record {
  name_trimmed = refl;
  named = refl;
  name_equals = refl;
  name_semicolon = refl;
  value_trimmed = refl;
  value_semicolon = refl;
}

parse-render_example : parse_cookie_header (render plain_pair) ≡ plain_pair
unfolding trim all_chars get
parse-render_example =
    parse-render plain_pair (auth-IsPlain, (csrf-IsPlain, record {})) (refl, (refl, record {}))
