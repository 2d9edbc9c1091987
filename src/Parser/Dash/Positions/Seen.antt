-- ===== src/Parser/Dash/Positions/Seen.antt =====
-- The positions of groups, each URN once.
use linkex.Shared.{
  String, ◌≡◌, refl, sym, Bool, true, false, ◌&&◌, ◌||◌, Option, inl, inr, List, [], ◌∷◌, ◌++◌, map,
  Bool-cases, string_eq,
}
use linkex.Json.{Fields}
use linkex.Parser.Dash.{Env}
use linkex.Parser.Dash.Positions.{
  position_urn, same_urn, is_seen, merge_position, group_onto, groups_from, group_positions,
  collection_of, flatten_positions,
}
use linkex.Parser.Dash.Positions.Fresh.{
  distinct_urns, same_urn→eq, position_urn-merge_position, groups_from-Fresh, never_both,
}

-- The first list is made of the second by leaving entries out.
pub data Within : List Fields → List Fields → Type 0 where
  done : Within [] []
  kept : (p : Fields) (ps qs : List Fields) → Within ps qs → Within (p ∷ ps) (p ∷ qs)
  left_out : (p : Fields) (ps qs : List Fields) → Within ps qs → Within ps (p ∷ qs)

-- The positions of all groups, in their order, each with what it lacks from its group.
abbrev pub all_grouped : Env → List Fields → List Fields
all_grouped env [] = []
all_grouped env (group ∷ groups) =
    map (merge_position group) (group_positions env group) ++ all_grouped env groups

abbrev urns : List Fields → List (Option String)
urns positions = map position_urn positions

group_onto-Within :
    (group : Fields) (positions : List Fields) (seen : List (Option String))
    (rest : List (Option String) → List Fields) (others : List Fields)
    → ((s : List (Option String)) → Within (rest s) others)
    → Within (group_onto group positions seen rest) (map (merge_position group) positions ++ others)
unfolding group_onto
group_onto-Within group [] seen rest others later = later seen
group_onto-Within group (position ∷ positions) seen rest others later =
    elim (Bool-cases (is_seen (position_urn position) seen)) [
      | inl e ↦ rw e (left_out _ _ _ (group_onto-Within group positions seen rest others later))
      | inr e ↦ rw e (
          kept _ _ _
            (group_onto-Within group positions (position_urn position ∷ seen) rest others later))
    ]

groups_from-Within :
    (env : Env) (groups : List Fields) (seen : List (Option String))
    → Within (groups_from env groups seen) (all_grouped env groups)
unfolding groups_from
groups_from-Within env [] seen = done
groups_from-Within env (group ∷ groups) seen =
    group_onto-Within group (group_positions env group) seen (groups_from env groups)
      (all_grouped env groups) (groups_from-Within env groups)

-- What was seen, and the URNs of positions: those that are kept and those that there are.
abbrev Covers : List (Option String) → List Fields → List Fields → Type 0
Covers seen ps qs =
    (u : Option String)
    → (is_seen u seen || is_seen u (urns ps)) ≡ (is_seen u seen || is_seen u (urns qs))

or_repeated :
    (s m x y : Bool) → (m ≡ true → s ≡ true) → (s || x) ≡ (s || y) → (s || x) ≡ (s || (m || y))
or_repeated true m x y f h = refl
or_repeated false false x y f h = h
or_repeated false true x y f h = cc (f refl)

or_fresh : (s m x y : Bool) → ((m || s) || x) ≡ ((m || s) || y) → (s || (m || x)) ≡ (s || (m || y))
or_fresh true m x y h = refl
or_fresh false true x y h = refl
or_fresh false false x y h = h

seen_again :
    (p u : Option String) (seen : List (Option String))
    → is_seen p seen ≡ true
    → same_urn p u ≡ true
    → is_seen u seen ≡ true
seen_again p u seen h e = let same = same_urn→eq p u e in rw (sym same) h

group_onto-Covers :
    (group : Fields) (positions : List Fields) (seen : List (Option String))
    (rest : List (Option String) → List Fields) (others : List Fields)
    → ((s : List (Option String)) → Covers s (rest s) others)
    → Covers seen
        (group_onto group positions seen rest)
        (map (merge_position group) positions ++ others)
unfolding group_onto is_seen
group_onto-Covers group [] seen rest others later u = later seen u
group_onto-Covers group (position ∷ positions) seen rest others later u =
    let p = position_urn position in
    let others_of = is_seen u (urns (map (merge_position group) positions ++ others)) in
    let same = position_urn-merge_position group position in
    elim (Bool-cases (is_seen p seen)) [
      | inl e ↦
          rw (e, same)
            (or_repeated (is_seen u seen) (same_urn p u) _ others_of (seen_again p u seen e)
              (group_onto-Covers group positions seen rest others later u))
      | inr e ↦
          rw (e, same)
            (or_fresh (is_seen u seen) (same_urn p u) _ others_of
              (group_onto-Covers group positions (p ∷ seen) rest others later u))
    ]

groups_from-Covers :
    (env : Env) (groups : List Fields) (seen : List (Option String))
    → Covers seen (groups_from env groups seen) (all_grouped env groups)
unfolding groups_from
groups_from-Covers env [] seen u = refl
groups_from-Covers env (group ∷ groups) seen u =
    group_onto-Covers group (group_positions env group) seen (groups_from env groups)
      (all_grouped env groups) (groups_from-Covers env groups) u

abbrev pub standalone_of : List (String × List Fields) → Env → List Fields
standalone_of collections env =
    collection_of env collections "profilePositions" ("ProfilePosition" ∷ "Position" ∷ [])

abbrev pub groups_of : List (String × List Fields) → Env → List Fields
groups_of collections env =
    collection_of env collections "profilePositionGroups"
      ("ProfilePositionGroup" ∷ "PositionGroup" ∷ [])

-- What is taken of the positions of groups: some of them, in their order; no URN twice and none of a
-- standalone position; and every URN that a group has and no standalone position.
pub record IsTaken (standalone all taken : List Fields) : Type 0 where
  pub within : Within taken all
  pub single : distinct_urns (map position_urn taken) ≡ true
  pub apart_from :
      (u : Option String)
      → is_seen u (map position_urn standalone) && is_seen u (map position_urn taken) ≡ false
  pub covers :
      (u : Option String)
      → (is_seen u (map position_urn standalone) || is_seen u (map position_urn taken))
        ≡ (is_seen u (map position_urn standalone) || is_seen u (map position_urn all))

-- The positions are the standalone ones, all of them, and then those of the groups, each with what
-- it lacks from its group, in their order and with each URN once: none is repeated, and each that a
-- group has is there. Positions without a URN count as having the same one.
pub flatten_positions-distinct :
    (collections : List (String × List Fields)) (env : Env)
    → (taken : List Fields) × (flatten_positions collections env
        ≡ standalone_of collections env ++ taken)
      × IsTaken (standalone_of collections env) (all_grouped env (groups_of collections env)) taken
unfolding flatten_positions
flatten_positions-distinct collections env =
    let seen = map position_urn (standalone_of collections env) in
    let groups = groups_of collections env in
    let taken = groups_from env groups seen in
    let fresh = groups_from-Fresh env groups seen in
    (
      taken,
      refl,
      record {
        within = groups_from-Within env groups seen;
        single = fresh.single;
        apart_from = λ u. never_both seen taken u fresh;
        covers = groups_from-Covers env groups seen;
      },
    )
