-- ===== src/Parser/Index.antt =====
-- src/parser/normalized.rs: the index of the entities of a normalised envelope.
pub mod Entities
pub mod Search
use Prim.Native.String
use linkex.Shared.{
  ℕ, zero, suc, ◌+◌, String, Bool, true, false, not, ◌&&◌, ◌||◌, Option, none, some, List, [], ◌∷◌,
  ◌++◌, ◌==◌, string_eq, map, ltb, is_none, is_some, contains_key, get, insert, if◌then◌else◌,
}
use linkex.Shared.Options.{◌>>=◌, filter, filter_map, filter_option, find_map, unwrap_or}
use linkex.Shared.Text.{◌&◌, is_nil, ends_with}
use linkex.Json
use linkex.Json.{Value, Fields, Items, lookup, as_str, as_object, as_array, items_list}
use linkex.Parser.Texts.{get_field}
use linkex.Parser.Labels.{objects_in}

abbrev type_key : String
type_key = "$type"

-- `included` is a hash map from URNs to entities; `content` is the source's `data`.
pub record EntityIndex : Type 0 where
  pub included : List (String × Value)
  pub order : List String
  pub content : Option Fields

-- the URN that an item is kept under
abbrev pub urn_of_item : Value → Option String
urn_of_item item = filter_option (λ u. not (is_nil u)) (get_field item "entityUrn" >>= as_str)

abbrev pub indexed : Option String → Value → EntityIndex → EntityIndex
indexed none item index = index
indexed (some urn) item index = record index {
  included = insert urn item index.included;
  order = if contains_key urn index.included then index.order else index.order ++ urn ∷ [];
}

-- the loop over `included`
unfoldable pub index_all : List Value → EntityIndex → EntityIndex
index_all [] index = index
index_all (item ∷ items) index = index_all items (indexed (urn_of_item item) item index)

abbrev pub empty_index : Option Fields → EntityIndex
empty_index content = record { included = []; order = []; content = content }

abbrev index_of : Option (List Value) → Option Fields → Option EntityIndex
index_of (some items) content = some (index_all items (empty_index content))
index_of none none = none
index_of none (some d) = some (empty_index (some d))

unfoldable pub new : Value → Option EntityIndex
new payload = as_object payload >>= λ raw.
    index_of (lookup "included" raw >>= as_array) (lookup "data" raw >>= as_object)

unfoldable pub by_urn : EntityIndex → Option String → Option Value
by_urn index urn = urn >>= λ u. get u index.included

-- One of the suffixes ends the type of an entity.
abbrev pub has_type : List String → Value → Bool
has_type suffixes entity = is_some (
    get_field entity type_key >>= as_str >>= λ t.
    find_map (λ s. if ends_with t ("." & s) then some s else none) suffixes)

unfoldable pub of_type : EntityIndex → List String → List Fields
of_type index suffixes =
    filter_map as_object
      (filter (has_type suffixes) (filter_map (λ urn. get urn index.included) index.order))

abbrev first_of {ℓ} : {A : Type ℓ} → List A → Option A
first_of [] = none
first_of (x ∷ xs) = some x

unfoldable pub first_of_type : EntityIndex → List String → Option Fields
first_of_type index suffixes = first_of (of_type index suffixes)

unfoldable pub unwrap_urn : EntityIndex → Value → Value
unwrap_urn index (Json.string s) = unwrap_or (Json.string s) (by_urn index (some s))
unwrap_urn index v = v

abbrev resolved : EntityIndex → Option Value → Option Value → Option Value
resolved index none none = none
resolved index none (some pointer) = some (unwrap_urn index pointer)
resolved index (some value) _ = some (unwrap_urn index value)

unfoldable pub field : EntityIndex → Option Fields → String → Option Value
field index entity name = entity >>= λ m. resolved index (lookup name m) (lookup ("*" & name) m)

unfoldable pub item : EntityIndex → Value → Option Fields
item index (Json.object o) = some o
item index (Json.string u) = by_urn index (some u) >>= as_object
item index _ = none

abbrev collection : EntityIndex → Value → Option (List Value)
collection index (Json.array items) = some (items_list items)
collection index (Json.object o) = lookup "elements" o >>= λ v. as_array (unwrap_urn index v)
collection index _ = none

abbrev resolved_items : EntityIndex → Option (List Value) → List Fields
resolved_items index none = []
resolved_items index (some items) = filter_map (item index) items

unfoldable pub elements_named : EntityIndex → Option Fields → String → List Fields
elements_named index entity name =
    resolved_items index (field index entity name >>= collection index)

unfoldable pub elements : EntityIndex → Option Fields → List Fields
elements index entity = elements_named index entity "elements"

abbrev pub max_depth : ℕ
max_depth = 6

abbrev pub max_list_items : ℕ
max_list_items = 12

-- an object with a `rootUrl` and `artifacts`
abbrev pub is_image : Fields → Bool
is_image obj =
    is_some (lookup "rootUrl" obj >>= as_str) && is_some (lookup "artifacts" obj >>= as_array)

abbrev or_next : Option Fields → Option Fields → Option Fields
or_next none found = found
or_next (some o) _ = some o

unfoldable mutual
  -- `find_vector_image` in a node, `depth` levels down
  pub find_vector_image : Value → ℕ → Option Fields
  find_vector_image (Json.object obj) depth =
      let inside = find_in_values obj (depth + 1) in
      if ltb max_depth depth then none else if is_image obj then some obj else inside
  find_vector_image (Json.array items) depth =
      let inside = find_in_items items (depth + 1) max_list_items in
      if ltb max_depth depth then none else inside
  find_vector_image _ depth = none

  -- in the values of an object
  pub find_in_values : Fields → ℕ → Option Fields
  find_in_values Json.end depth = none
  find_in_values (Json.field k v m) depth =
      or_next (find_vector_image v depth) (find_in_values m depth)

  -- in the first items of an array
  pub find_in_items : Items → ℕ → ℕ → Option Fields
  find_in_items Json.nil depth left = none
  find_in_items (Json.cons v vs) depth zero = none
  find_in_items (Json.cons v vs) depth (suc left) =
      or_next (find_vector_image v depth) (find_in_items vs depth left)
