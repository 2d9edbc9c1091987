-- ===== src/Parser/Legacy/Distinct.antt =====
-- The skills of a profile, each name once.
use text.Mathlib.TextPositions.{eq_refl}
use linkex.Shared.{
  String, ◌≡◌, refl, true, false, inl, inr, List, [], ◌∷◌, map, contains, Bool-cases, Option-cases,
  string_eq, ◌==◌,
}
use linkex.Shared.Options.{filter_map}
use linkex.Json.{Fields}
use linkex.Domain.{Skill}
use linkex.Draft.Merging.{distinct}
use linkex.Parser.{Platform}
use linkex.Parser.Texts.{text_of}
use linkex.Parser.Legacy.Views.{skills_from, parse_skill_elements}

apart :
    (a b : String) (s : List String) → contains a s ≡ true → contains b s ≡ false → (a == b) ≡ false
apart a b s h k = elim (Bool-cases (a == b)) [
  | inl e ↦ cc (h, k, (string_eq.same_iff a b).0 e)
  | inr e ↦ e
]

apart_rev :
    (a b : String) (s : List String) → contains a s ≡ false → contains b s ≡ true → (a == b) ≡ false
apart_rev a b s h k = elim (Bool-cases (a == b)) [
  | inl e ↦ cc (h, k, (string_eq.same_iff a b).0 e)
  | inr e ↦ e
]

module _ (platform : Platform) where
  -- the names of skills, in lower case
  abbrev pub lowered : List Skill → List String
  lowered skills = map (λ s. platform.to_lowercase s.name) skills

  -- the names that the elements have, in lower case
  abbrev pub names_in : List Fields → List String
  names_in items = map platform.to_lowercase (filter_map (λ e. text_of e "name") items)

  -- A name that was seen is not taken again.
  skills_from-seen :
      (items : List Fields) (seen : List String) (x : String)
      → contains x seen ≡ true
      → contains x (lowered (skills_from platform items seen)) ≡ false
  unfolding skills_from
  skills_from-seen [] seen x h = refl
  skills_from-seen (element ∷ items) seen x h = elim (Option-cases (text_of element "name")) [
    | inl e ↦ rw (e, skills_from-seen items seen x h)
    | inr (name, e) ↦ elim (Bool-cases (contains (platform.to_lowercase name) seen)) [
      | inl k ↦ rw (e, k, skills_from-seen items seen x h)
      | inr k ↦
          let other = apart_rev (platform.to_lowercase name) x seen k h in
          rw (
            e,
            k,
            other,
            skills_from-seen items (platform.to_lowercase name ∷ seen) x (rw (other, h)),
          )
    ]
  ]

  -- A name that was not seen is taken if and only if an element has it.
  skills_from-unseen :
      (items : List Fields) (seen : List String) (x : String)
      → contains x seen ≡ false
      → contains x (lowered (skills_from platform items seen)) ≡ contains x (names_in items)
  unfolding skills_from
  skills_from-unseen [] seen x h = refl
  skills_from-unseen (element ∷ items) seen x h = elim (Option-cases (text_of element "name")) [
    | inl e ↦ rw (e, skills_from-unseen items seen x h)
    | inr (name, e) ↦ elim (Bool-cases (contains (platform.to_lowercase name) seen)) [
      | inl k ↦
          rw
            (e, k, apart (platform.to_lowercase name) x seen k h, skills_from-unseen items seen x h)
      | inr k ↦ elim (Bool-cases (platform.to_lowercase name == x)) [
        | inl f ↦ rw (e, k, f)
        | inr f ↦
            rw (e, k, f, skills_from-unseen items (platform.to_lowercase name ∷ seen) x (rw (f, h)))
      ]
    ]
  ]

  skills_from-distinct :
      (items : List Fields) (seen : List String)
      → distinct (lowered (skills_from platform items seen)) ≡ true
  unfolding skills_from distinct
  skills_from-distinct [] seen = refl
  skills_from-distinct (element ∷ items) seen = elim (Option-cases (text_of element "name")) [
    | inl e ↦ rw (e, skills_from-distinct items seen)
    | inr (name, e) ↦ elim (Bool-cases (contains (platform.to_lowercase name) seen)) [
      | inl k ↦ rw (e, k, skills_from-distinct items seen)
      | inr k ↦ rw (
        e,
        k,
        skills_from-seen items (platform.to_lowercase name ∷ seen) (platform.to_lowercase name)
            (rw (eq_refl (platform.to_lowercase name))),
        skills_from-distinct items (platform.to_lowercase name ∷ seen),
      )
    ]
  ]

  -- Skills are listed once each: no two have the same name in lower case, and a name in lower case
  -- is listed if and only if some element has it.
  pub parse_skill_elements-distinct :
      (items : List Fields) (x : String)
      → (distinct (lowered (parse_skill_elements platform items)) ≡ true)
        × (contains x (lowered (parse_skill_elements platform items)) ≡ contains x (names_in items))
  unfolding parse_skill_elements
  parse_skill_elements-distinct items x =
      (skills_from-distinct items [], skills_from-unseen items [] x refl)
