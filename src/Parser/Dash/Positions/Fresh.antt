-- ===== src/Parser/Dash/Positions/Fresh.antt =====
-- src/parser/dash.rs: the URNs of positions that flatten_positions takes from groups.
use text.Mathlib.TextPositions.{eq_refl}
use linkex.Shared.{
  String, ◌≡◌, refl, ap, ◌∙◌, Bool, true, false, not, ◌&&◌, Option, none, some, inl, inr, List, [],
  ◌∷◌, map, Bool-cases, string_eq, ◌==◌,
}
use linkex.Json.{Value, Fields, lookup, lookup-put}
use linkex.Parser.Dash.{Env}
use linkex.Parser.Dash.Positions.{
  position_urn, same_urn, is_seen, inherit, inherit_from, merge_position, group_onto, groups_from,
  group_positions,
}

same_urn-refl_at : (a : Option String) → same_urn a a ≡ true
same_urn-refl_at none = refl
same_urn-refl_at (some a) = eq_refl a

pub same_urn→eq : (a b : Option String) → same_urn a b ≡ true → a ≡ b
same_urn→eq none none h = refl
same_urn→eq (some a) (some b) h = ap some ((string_eq.same_iff a b).0 h)
same_urn→eq none (some b) h = cc
same_urn→eq (some a) none h = cc

apart :
    (a b : Option String) (seen : List (Option String))
    → is_seen a seen ≡ false
    → is_seen b seen ≡ true
    → same_urn a b ≡ false
apart a b seen h k = elim (Bool-cases (same_urn a b)) [
  | inl e ↦ cc (h, k, same_urn→eq a b e)
  | inr e ↦ e
]

-- A position keeps its URN when it inherits from its group.
inherit_from-urn :
    (key : String) (m : Fields) (own value : Option Value)
    → (key == "entityUrn") ≡ false
    → position_urn (inherit_from key m own value) ≡ position_urn m
inherit_from-urn key m none (some v) h = rw (lookup-put "entityUrn" key v m, h)
inherit_from-urn key m none none h = refl
inherit_from-urn key m (some w) value h = refl

position_urn-inherit :
    (key : String) (value : Option Value) (m : Fields)
    → (key == "entityUrn") ≡ false
    → position_urn (inherit key value m) ≡ position_urn m
unfolding inherit
position_urn-inherit key value m h = inherit_from-urn key m (lookup key m) value h

pub position_urn-merge_position :
    (group position : Fields) → position_urn (merge_position group position) ≡ position_urn position
unfolding merge_position
position_urn-merge_position group position =
    position_urn-inherit "company" _ _ refl
    ∙ position_urn-inherit "companyUrn" _ _ refl
    ∙ position_urn-inherit "companyName" _ position refl

-- No URN stands twice, and none of those seen.
unfoldable pub distinct_urns : List (Option String) → Bool
distinct_urns [] = true
distinct_urns (u ∷ us) = not (is_seen u us) && distinct_urns us

pub record Fresh (seen : List (Option String)) (positions : List Fields) : Type 0 where
  pub unseen :
      (u : Option String) → is_seen u seen ≡ true → is_seen u (map position_urn positions) ≡ false
  pub single : distinct_urns (map position_urn positions) ≡ true

kept-Fresh :
    (urn : Option String) (seen : List (Option String)) (p : Fields) (later : List Fields)
    → position_urn p ≡ urn
    → is_seen urn seen ≡ false
    → Fresh (urn ∷ seen) later
    → Fresh seen (p ∷ later)
unfolding is_seen distinct_urns
kept-Fresh urn seen p later e k f = record {
  unseen = λ u h. let other = apart urn u seen k h in rw (e, other, f.unseen u (rw (other, h)));
  single = rw (e, f.unseen urn (rw (same_urn-refl_at urn)), f.single);
}

group_onto-Fresh :
    (group : Fields) (positions : List Fields) (seen : List (Option String))
    (rest : List (Option String) → List Fields)
    (later : (s : List (Option String)) → Fresh s (rest s))
    → Fresh seen (group_onto group positions seen rest)
unfolding group_onto
group_onto-Fresh group [] seen rest later = later seen
group_onto-Fresh group (position ∷ positions) seen rest later =
    elim (Bool-cases (is_seen (position_urn position) seen)) [
      | inl e ↦ rw e (group_onto-Fresh group positions seen rest later)
      | inr e ↦ rw e (
          kept-Fresh (position_urn position) seen (merge_position group position) _
            (position_urn-merge_position group position) e
            (group_onto-Fresh group positions (position_urn position ∷ seen) rest later))
    ]

pub groups_from-Fresh :
    (env : Env) (groups : List Fields) (seen : List (Option String))
    → Fresh seen (groups_from env groups seen)
unfolding groups_from is_seen distinct_urns
groups_from-Fresh env [] seen = record { unseen = λ u h. refl; single = refl }
groups_from-Fresh env (group ∷ groups) seen =
    group_onto-Fresh group (group_positions env group) seen (groups_from env groups)
      (groups_from-Fresh env groups)

pub never_both :
    (seen : List (Option String)) (positions : List Fields) (u : Option String)
    → Fresh seen positions
    → is_seen u seen && is_seen u (map position_urn positions) ≡ false
never_both seen positions u f = elim (Bool-cases (is_seen u seen)) [
  | inl e ↦ rw (e, f.unseen u e)
  | inr e ↦ rw e
]
