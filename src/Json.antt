-- ===== src/Json.antt =====
-- JSON values, as the `serde_json::Value` of the parsers and of the error details
-- (src/parser/common.rs, src/error.rs). An object keeps one entry for each key; a number is an
-- integer, or a float counted in billionths.
use linkex.Shared.{
  String, ◌≡◌, refl, arith, Bool, List, [], ◌∷◌, Option, none, some, ◌==◌, string_eq, if◌then◌else◌,
}
use linkex.Shared.Int.{ℤ}

mutual
  -- the entries of a `Map<String, Value>`
  pub data Fields : Type 0 where
    field : String → Value → Fields → Fields
    end : Fields

  -- `Value`
  pub data Value : Type 0 where
    object : Fields → Value
    array : Items → Value
    string : String → Value
    float : ℤ → Value
    integer : ℤ → Value
    bool : Bool → Value
    null : Value

  -- the elements of a `Vec<Value>`
  pub data Items : Type 0 where
    nil : Items
    cons : Value → Items → Items

-- `Map::get`
unfoldable pub lookup : String → Fields → Option Value
lookup k end = none
lookup k (field j v m) = if j == k then some v else lookup k m

-- `Map::insert`
unfoldable pub put : String → Value → Fields → Fields
put k v end = field k v end
put k v (field j w m) = if j == k then field k v m else field j w (put k v m)

unfoldable pub items_list : Items → List Value
items_list nil = []
items_list (cons v vs) = v ∷ items_list vs

unfoldable pub list_items : List Value → Items
list_items [] = nil
list_items (v ∷ vs) = cons v (list_items vs)

abbrev pub as_str : Value → Option String
as_str (string s) = some s
as_str _ = none

abbrev pub as_object : Value → Option Fields
as_object (object m) = some m
as_object _ = none

abbrev pub as_array : Value → Option (List Value)
as_array (array vs) = some (items_list vs)
as_array _ = none

pub lookup-put :
    (k j : String) (v : Value) (m : Fields)
    → lookup k (put j v m) ≡ (if j == k then some v else lookup k m)
unfolding lookup put
lookup-put k j v end = refl
lookup-put k j v (field i w m) = ground (
  arith,
  lookup-put k j v m,
  string_eq.same_iff j k,
  string_eq.same_iff i j,
  string_eq.same_iff i k,
)
