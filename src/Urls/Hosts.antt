-- ===== src/Urls/Hosts.antt =====
-- Which hosts a profile URL may have.
use linkex.Shared.{
  String, ◌≡◌, refl, sym, ap, ◌∙◌, true, ◌&&◌, Option, none, some, inl, inr, ◌⊎◌, ◌==◌, string_eq,
  is_none, Bool-cases, both_true,
}
use linkex.Shared.Text.{ends_with, is_nil, trim, ◌&◌, nil_append, cons_append}
use linkex.Error.{Result, ok, err}
use linkex.Parser.{Platform}
use linkex.Urls.{
  Url, ProfileRef, ◌>>?◌, has_text, is_trusted, is_allowed_host, identifier_from_url, identifier_of,
  candidate_of, ref_of, parse_profile_url, host_allowed, from_url,
}

ends_with-append : (s t : String) → ends_with s t ≡ true → (p : String) × (s ≡ p & t)
unfolding ends_with
ends_with-append String.[] t h = ("", (string_eq.same_iff "" t).0 h ∙ sym (nil_append t))
ends_with-append (String.◌∷◌ c s) t h = elim (Bool-cases (String.◌∷◌ c s == t)) [
  | inl e ↦ ("", (string_eq.same_iff (String.◌∷◌ c s) t).0 e ∙ sym (nil_append t))
  | inr e ↦
      let (p, f) = ends_with-append s t (rw e at h) in
      (String.◌∷◌ c p, ap (λ u. String.◌∷◌ c u) f ∙ sym (cons_append c p t))
]

is_nil-eq : (s : String) → is_nil s ≡ true → s ≡ ""
is_nil-eq String.[] h = refl
is_nil-eq (String.◌∷◌ c s) h = cc

is_none-eq : (o : Option String) → is_none o ≡ true → o ≡ none
is_none-eq none h = refl
is_none-eq (some s) h = cc

module _ (platform : Platform) where
  -- A URL of linkedin.com or of a host below it, without credentials.
  pub record IsLinkedin (url : Url) : Type 0 where
    pub nobody : url.username ≡ ""
    pub unlocked : url.password ≡ none
    pub host : String
    pub host_is : url.host ≡ some host
    pub below :
        (platform.to_lowercase host ≡ "linkedin.com")
        ⊎ ((p : String) × (platform.to_lowercase host ≡ p & ".linkedin.com"))

  is_allowed_host-cases :
      (host : String)
      → is_allowed_host platform host ≡ true
      → (platform.to_lowercase host ≡ "linkedin.com")
        ⊎ ((p : String) × (platform.to_lowercase host ≡ p & ".linkedin.com"))
  unfolding is_allowed_host
  is_allowed_host-cases host h = elim (Bool-cases (platform.to_lowercase host == "linkedin.com")) [
    | inl e ↦ inl ((string_eq.same_iff (platform.to_lowercase host) "linkedin.com").0 e)
    | inr e ↦ inr (ends_with-append (platform.to_lowercase host) ".linkedin.com" (rw e at h))
  ]

  host_allowed-some :
      (o : Option String)
      → host_allowed platform o ≡ true
      → (host : String) × (o ≡ some host) × (is_allowed_host platform host ≡ true)
  host_allowed-some none h = cc
  host_allowed-some (some host) h = (host, refl, h)

  is_trusted-IsLinkedin : (url : Url) → is_trusted platform url ≡ true → IsLinkedin url
  is_trusted-IsLinkedin url h =
      let (bare, allowed) =
        both_true (is_nil url.username && is_none url.password) (host_allowed platform url.host)
          h in
      let (named, locked) = both_true (is_nil url.username) (is_none url.password) bare in
      let (host, is, known) = host_allowed-some url.host allowed in
      record {
        nobody = is_nil-eq url.username named;
        unlocked = is_none-eq url.password locked;
        host = host;
        host_is = is;
        below = is_allowed_host-cases host known;
      }

  from_url-trusted :
      (found : Option Url) (identifier : String)
      → from_url platform found ≡ some (ok identifier)
      → (url : Url) × (found ≡ some url) × IsLinkedin url
  from_url-trusted none identifier h = cc
  from_url-trusted (some url) identifier h = elim (Bool-cases (is_trusted platform url)) [
    | inl e ↦ (url, refl, is_trusted-IsLinkedin url e)
    | inr e ↦ cc (rw e at h)
  ]

  -- What an outcome that is a profile comes of.
  then-ok :
      (raw : String) (o : Option (Result String)) (r : ProfileRef)
      → (o >>? λ identifier. some (ok (ref_of platform raw identifier))) ≡ some (ok r)
      → (identifier : String) × (o ≡ some (ok identifier)) × (ref_of platform raw identifier ≡ r)
  then-ok raw none r h = cc
  then-ok raw (some (err e)) r h = cc
  then-ok raw (some (ok identifier)) r h = (identifier, refl, cc)

  pub parse_profile_url-ok :
      (parse : String → Option Url) (value : String) (r : ProfileRef)
      → parse_profile_url platform parse value ≡ some (ok r)
      → (identifier : String) × (identifier_of platform parse (candidate_of platform (trim value))
          ≡ some (ok identifier))
        × (ref_of platform (trim value) identifier ≡ r)
  unfolding parse_profile_url
  parse_profile_url-ok parse value r h = elim (Bool-cases (is_nil (trim value))) [
    | inl e ↦ cc (rw e at h)
    | inr e ↦ then-ok (trim value) _ r (rw e at h)
  ]

  -- A link that is accepted, with whatever in front or behind, is one that the crate url parses to a
  -- URL of linkedin.com or of a host below it, and has no user name and no password.
  pub parse_profile_url-trusted :
      (parse : String → Option Url) (value : String) (r : ProfileRef)
      → parse_profile_url platform parse value ≡ some (ok r)
      → has_text "//" (candidate_of platform (trim value)) ≡ true
      → (url : Url) × (parse (candidate_of platform (trim value)) ≡ some url) × IsLinkedin url
  unfolding identifier_of identifier_from_url
  parse_profile_url-trusted parse value r h link =
      let (identifier, made, _) = parse_profile_url-ok parse value r h in
      from_url-trusted (parse (candidate_of platform (trim value))) identifier (rw link at made)
