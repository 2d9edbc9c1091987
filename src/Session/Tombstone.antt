-- ===== src/Session/Tombstone.antt =====
-- When a session counts as usable, and what the tombstone does to it.
use linkex.Shared.{
  String, ◌≡◌, refl, ◌∙◌, ◌↔◌, Bool, true, false, not, ◌&&◌, Option, none, some, [], ◌∷◌, arith,
  nat_eq, string_eq, is_some,
}
use linkex.Shared.Text.{is_nil, trim_matches}
use linkex.Session.{
  LinkedInSession, li_at_name, li_at, jsessionid, is_quote, is_tombstone, is_dead, merge_cookies,
  is_usable, signed_out, map_option,
}
use linkex.Session.Merge.{view, reissued, get-merge_all}

is_tombstone-nil : is_tombstone "" ≡ false
unfolding is_tombstone
is_tombstone-nil = refl

is_nil_of_tombstone : (value : String) → is_tombstone value ≡ true → is_nil value ≡ false
is_nil_of_tombstone String.[] h = cc (is_tombstone-nil)
is_nil_of_tombstone (String.◌∷◌ c s) h = refl

usable_of_parts :
    (auth token : Option String)
    → ((is_some auth && is_some (map_option (trim_matches is_quote) token) && not (is_dead auth))
        ≡ true)
      ↔ ((a t : String) × (auth ≡ some a) × (token ≡ some t) × (is_dead auth ≡ false))
usable_of_parts (some a) (some t) = (λ h. (a, t, refl, refl, ground arith), λ h. ground arith)
usable_of_parts none token = (λ h. cc, λ h. cc (h.2))
usable_of_parts (some a) none = (λ h. ground arith, λ h. cc (h.3))

-- A usable session has both cookies and is not signed out; and a session is usable whenever this
-- holds.
pub is_usable_iff :
    (s : LinkedInSession)
    → (is_usable s ≡ true)
      ↔ ((a t : String) × (li_at s ≡ some a) × (jsessionid s ≡ some t) × (signed_out s ≡ false))
unfolding is_usable signed_out
is_usable_iff s = usable_of_parts (li_at s) (jsessionid s)

li_at-merge_tombstone :
    (value : String) (s : LinkedInSession)
    → is_tombstone value ≡ true
    → li_at (merge_cookies ((li_at_name, value) ∷ []) s) ≡ some value
unfolding merge_cookies view reissued
li_at-merge_tombstone value s h =
    get-merge_all li_at_name ((li_at_name, value) ∷ []) s.cookies
    ∙ rw (is_nil_of_tombstone value h, h)

and_false : (b : Bool) → (b && false) ≡ false
and_false true = refl
and_false false = refl

-- An auth cookie that LinkedIn expires signs the session out, and the session stops being usable.
pub merge_cookies-signed_out :
    (value : String) (s : LinkedInSession)
    → is_tombstone value ≡ true
    → (signed_out (merge_cookies ((li_at_name, value) ∷ []) s) ≡ true)
      × (is_usable (merge_cookies ((li_at_name, value) ∷ []) s) ≡ false)
unfolding is_usable signed_out
merge_cookies-signed_out value s h =
    let e = li_at-merge_tombstone value s h in (rw (e, h), rw (e, h) (and_false _))
