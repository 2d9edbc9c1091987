-- ===== src/Parser/Dash/Positions.antt =====
-- src/parser/dash.rs: positions, standing alone and in groups.
pub mod Fresh
pub mod Seen
use linkex.Shared.{
  String, Bool, true, false, not, ◌&&◌, ◌||◌, Option, none, some, List, [], ◌∷◌, ◌++◌, ◌==◌,
  string_eq, map, get, is_none, if◌then◌else◌,
}
use linkex.Shared.Options.{◌>>=◌, unwrap_or, map_option}
use linkex.Json
use linkex.Json.{Value, Fields, lookup, put, as_str, null}
use linkex.Parser.Texts.{text_of, field_or_null}
use linkex.Parser.Index
use linkex.Parser.Dash.{Env, embedded, normalized, elements_from_value}

abbrev pub position_urn : Fields → Option String
position_urn p = lookup "entityUrn" p >>= as_str

abbrev pub same_urn : Option String → Option String → Bool
same_urn none none = true
same_urn (some a) (some b) = a == b
same_urn _ _ = false

-- `seen.contains`, of a set of optional URNs
unfoldable pub is_seen : Option String → List (Option String) → Bool
is_seen urn [] = false
is_seen urn (s ∷ seen) = same_urn s urn || is_seen urn seen

-- `if merged.get(key).is_none() { merged.insert(key, value) }`, for a value that is there
abbrev inherit_from : String → Fields → Option Value → Option Value → Fields
inherit_from key merged none (some v) = put key v merged
inherit_from key merged _ _ = merged

unfoldable pub inherit : String → Option Value → Fields → Fields
inherit key value merged = inherit_from key merged (lookup key merged) value

unfoldable pub merge_position : Fields → Fields → Fields
merge_position group position = inherit "company" (lookup "company" group) (
    inherit "companyUrn" (lookup "companyUrn" group)
      (inherit "companyName" (map_option Json.string (text_of group "companyName")) position))

-- The positions of a group, with the URNs seen so far, in front of those of the groups after it.
unfoldable pub group_onto :
    Fields → List Fields → List (Option String) → (List (Option String) → List Fields) → List Fields
group_onto group [] seen rest = rest seen
group_onto group (position ∷ positions) seen rest =
    let repeated = is_seen (position_urn position) seen in
    let later =
      group_onto group positions (if repeated then seen else position_urn position ∷ seen) rest in
    if repeated then later else merge_position group position ∷ later

unfoldable pub group_positions : Env → Fields → List Fields
group_positions embedded group =
    elements_from_value (field_or_null "profilePositionInPositionGroup" group)
group_positions (normalized index) group =
    Index.elements_named index (some group) "profilePositionInPositionGroup"

unfoldable pub groups_from : Env → List Fields → List (Option String) → List Fields
groups_from env [] seen = []
groups_from env (group ∷ groups) seen =
    group_onto group (group_positions env group) seen (groups_from env groups)

abbrev pub collection_of : Env → List (String × List Fields) → String → List String → List Fields
collection_of embedded collections key suffixes = unwrap_or [] (get key collections)
collection_of (normalized index) collections key suffixes = Index.of_type index suffixes

unfoldable pub flatten_positions : List (String × List Fields) → Env → List Fields
flatten_positions collections env =
    let standalone =
      collection_of env collections "profilePositions" ("ProfilePosition" ∷ "Position" ∷ []) in
    standalone
    ++ groups_from env
        (collection_of env collections "profilePositionGroups"
          ("ProfilePositionGroup" ∷ "PositionGroup" ∷ []))
        (map position_urn standalone)
