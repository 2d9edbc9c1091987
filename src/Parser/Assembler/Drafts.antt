-- ===== src/Parser/Assembler/Drafts.antt =====
-- What drafts the payloads lead to, and what the optional payloads leave of them.
use linkex.Shared.{
  String, ◌≡◌, refl, sym, ◌∙◌, Bool, true, false, ◌||◌, Option, none, some, inl, inr, List, [], ◌∷◌,
  string_eq, ◌==◌, ◌++◌, ap, All, Option-cases, if◌then◌else◌, is_some, Bool-cases, or_option,
  arith,
}
use linkex.Shared.Int.{ℤ}
use linkex.Shared.Options.{◌>>=◌, bind-some, find_map, unwrap_or}
use linkex.Json
use linkex.Json.{Value, Fields, lookup, as_object}
use linkex.Domain.{Skill, ContactInfo, NetworkInfo}
use linkex.Draft.{
  ProfileDraft, Sections, is_populated, is_any_populated, populated, names_of, adopt_skills,
  fill_network, merge_contact,
}
use linkex.Parser.{Platform}
use linkex.Parser.Contact.{parse_contact_info}
use linkex.Parser.Legacy.{parse_network}
use linkex.Parser.Legacy.Views.{parse_skill_elements}
use linkex.Parser.Dash.Document.{parse_dash_profile}
use linkex.Parser.Assembler.{
  if_populated, legacy_draft, dash_draft, draft_from_legacy, draft_from_dash, draft_from_payloads,
  dash_names, dash_attempt, with_skills, dedicated, enrich,
}

abbrev pub strategies : List String
strategies = "dashProfile" ∷ "dashProfileMinimal" ∷ "graphqlProfile" ∷ "profileView" ∷ []

if_populated-some :
    (d e : ProfileDraft) → if_populated d ≡ some e → (d ≡ e) × (is_populated e ≡ true)
if_populated-some d e h = elim (Bool-cases (is_populated d)) [
  | inl p ↦ let same : d ≡ e = cc (rw p at h) in (same, rw (sym same, p))
  | inr p ↦ cc (rw p at h)
]

-- A draft says something, and names the strategy it comes of.
record IsFrom (strategy : String) (d : ProfileDraft) : Type 0 where
  said : is_populated d ≡ true
  named : d.strategy ≡ strategy

if_populated-IsFrom : (d e : ProfileDraft) → if_populated d ≡ some e → IsFrom d.strategy e
if_populated-IsFrom d e h =
    let (same, said) = if_populated-some d e h in record { said = said; named = rw same }

module _ (platform : Platform) where
  draft_from_dash-IsFrom :
      (payload : Option Value) (strategy : String) (now : ℤ × ℤ) (d : ProfileDraft)
      → draft_from_dash platform payload strategy now ≡ some d
      → IsFrom strategy d
  unfolding draft_from_dash
  draft_from_dash-IsFrom payload strategy now d h =
      let (parsed, _, made) =
        bind-some (payload >>= λ v. parse_dash_profile platform v now) _ d h in
      if_populated-IsFrom (dash_draft strategy parsed) d made

  draft_from_legacy-IsFrom :
      (view core : Option Value) (now : ℤ × ℤ) (d : ProfileDraft)
      → draft_from_legacy platform view core now ≡ some d
      → IsFrom "profileView" d
  unfolding draft_from_legacy
  draft_from_legacy-IsFrom view core now d h =
      elim (Bool-cases
        (is_some (view >>= as_object >>= lookup "profile") || is_some (core >>= as_object))) [
          | inl e ↦
              if_populated-IsFrom
                (legacy_draft platform (unwrap_or Json.end (view >>= as_object))
                  (unwrap_or Json.end (core >>= as_object)) now)
                d (rw e at h)
          | inr e ↦ cc (rw e at h)
        ]

  -- What one payload leads to: the one that is named `profileView` is read by the legacy parser, the
  -- others by the Dash parser.
  abbrev pub draft_of : Fields → ℤ × ℤ → String → Option ProfileDraft
  draft_of payloads now name =
      if name == "profileView"
      then draft_from_legacy platform (lookup "profileView" payloads) (lookup "profile" payloads)
          now
      else draft_from_dash platform (lookup name payloads) name now

  -- The draft that is made of the payloads tried in an order: its strategy is the name of one of
  -- them, that one leads to it, and those before lead to none.
  pub record IsFirst (payloads : Fields) (now : ℤ × ℤ) (order : List String) (d : ProfileDraft)
      : Type 0 where
    pub before : List String
    pub after : List String
    pub tried : order ≡ before ++ d.strategy ∷ after
    pub in_vain : All (λ name. draft_of payloads now name ≡ none) before
    pub made : draft_of payloads now d.strategy ≡ some d

  made-IsFirst :
      (payloads : Fields) (now : ℤ × ℤ) (order : List String) (name : String) (d : ProfileDraft)
      → draft_of payloads now name ≡ some d
      → d.strategy ≡ name
      → IsFirst payloads now (name ∷ order) d
  made-IsFirst payloads now order name d h same = record {
    before = [];
    after = order;
    tried = rw same;
    in_vain = tt;
    made = ap (λ n. draft_of payloads now n) same ∙ h;
  }

  later-IsFirst :
      (payloads : Fields) (now : ℤ × ℤ) (order : List String) (name : String) (d : ProfileDraft)
      → draft_of payloads now name ≡ none
      → IsFirst payloads now order d
      → IsFirst payloads now (name ∷ order) d
  later-IsFirst payloads now order name d h f = record {
    before = name ∷ f.before;
    after = f.after;
    tried = ap (λ names. name ∷ names) f.tried;
    in_vain = (h, f.in_vain);
    made = f.made;
  }

  -- The chain of the Dash payloads, in front of the legacy one.
  chain-IsFirst :
      (payloads : Fields) (now : ℤ × ℤ) (names : List String) (d : ProfileDraft)
      → All (λ name. (name == "profileView") ≡ false) names
      → or_option
          (find_map (dash_attempt platform payloads now) names)
          (draft_of payloads now "profileView")
        ≡ some d
      → IsFirst payloads now (names ++ "profileView" ∷ []) d
  chain-IsFirst payloads now [] d other h =
      made-IsFirst payloads now [] "profileView" d h
        (draft_from_legacy-IsFrom (lookup "profileView" payloads) (lookup "profile" payloads) now d
          h).named
  chain-IsFirst payloads now (name ∷ names) d (ne, other) h =
      elim (Option-cases (dash_attempt platform payloads now name)) [
        | inl e ↦
            later-IsFirst payloads now (names ++ "profileView" ∷ []) name d (rw (ne, e))
              (chain-IsFirst payloads now names d other (rw e at h))
        | inr (c, e) ↦
            let same : c ≡ d = cc (rw e at h) in
            let found : dash_attempt platform payloads now name ≡ some d = rw e (ap some same) in
            made-IsFirst payloads now (names ++ "profileView" ∷ []) name d (rw (ne, found))
              (draft_from_dash-IsFrom (lookup name payloads) name now d found).named
      ]

  -- The payloads are tried in a fixed order, the decorated Dash profile, the minimal one, GraphQL and
  -- the legacy view; the draft that they lead to is that of the first one that leads to any, and
  -- bears its name.
  pub draft_from_payloads-IsFirst :
      (payloads : Fields) (now : ℤ × ℤ) (d : ProfileDraft)
      → draft_from_payloads platform payloads now ≡ some d
      → IsFirst payloads now strategies d
  unfolding draft_from_payloads
  draft_from_payloads-IsFirst payloads now d h =
      chain-IsFirst payloads now dash_names d (refl, (refl, (refl, tt))) h

adopt_skills-any :
    (skills : List Skill) (s : Sections)
    → is_any_populated s ≡ true
    → is_any_populated (adopt_skills skills s) ≡ true
unfolding adopt_skills is_any_populated populated names_of
adopt_skills-any [] s h = h
adopt_skills-any (k ∷ ks) s h = ground arith

or_kept :
    (a b c x y : Bool)
    → (x ≡ true → y ≡ true)
    → (a || b || c || x) ≡ true
    → (a || b || c || y) ≡ true
or_kept true b c x y f h = refl
or_kept false true c x y f h = refl
or_kept false false true x y f h = refl
or_kept false false false x y f h = f h

-- What the network and the contact leave as it is.
record Kept (d e : ProfileDraft) : Type 0 where
  identity : e.identity ≡ d.identity
  strategy : e.strategy ≡ d.strategy
  said : is_populated e ≡ is_populated d

merge_contact-Kept : (c : Option ContactInfo) (d : ProfileDraft) → Kept d (merge_contact c d)
unfolding merge_contact is_populated
merge_contact-Kept none d = record { identity = refl; strategy = refl; said = refl }
merge_contact-Kept (some c) d = record { identity = refl; strategy = refl; said = refl }

fill_network-Kept : (n : Option NetworkInfo) (d : ProfileDraft) → Kept d (fill_network n d)
unfolding fill_network is_populated
fill_network-Kept none d = record { identity = refl; strategy = refl; said = refl }
fill_network-Kept (some n) d = record { identity = refl; strategy = refl; said = refl }

module _ (platform : Platform) where
  with_skills-populated :
      (payloads : Fields) (d : ProfileDraft)
      → is_populated d ≡ true
      → is_populated (with_skills platform payloads d) ≡ true
  unfolding is_populated
  with_skills-populated payloads d h =
      or_kept (is_some d.identity.full_name) (is_some d.identity.headline)
        (is_some d.identity.public_identifier) (is_any_populated d.sections) _
        (adopt_skills-any (parse_skill_elements platform (dedicated platform payloads)) d.sections)
        h

  -- Optional payloads leave the identity and the strategy of a draft as they are, and a draft that
  -- says something still does.
  pub enrich-keeps :
      (payloads : Fields) (d : ProfileDraft)
      → is_populated d ≡ true
      → ((enrich platform payloads d).identity ≡ d.identity)
        × ((enrich platform payloads d).strategy ≡ d.strategy)
        × (is_populated (enrich platform payloads d) ≡ true)
  unfolding enrich
  enrich-keeps payloads d h =
      let skilled = with_skills platform payloads d in
      let network = lookup "networkInfo" payloads >>= as_object >>= parse_network in
      let a = fill_network-Kept network skilled in
      let b =
        merge_contact-Kept
          (or_option (lookup "contactInfo" payloads) (lookup "dashContactInfo" payloads)
            >>= parse_contact_info platform)
          (fill_network network skilled) in
      (
        b.identity ∙ a.identity,
        b.strategy ∙ a.strategy,
        b.said ∙ a.said ∙ with_skills-populated payloads d h,
      )
