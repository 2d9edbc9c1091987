-- ===== src/Parser/Index/Entities.antt =====
-- The index as a map from URNs to entities.
use linkex.Shared.{
  String, ◌≡◌, refl, sym, ap, ◌∙◌, Bool, true, false, ◌||◌, Option, none, some, inl, inr, List, [],
  ◌∷◌, ◌==◌, string_eq, is_some, get, get-insert, contains, contains_key, Bool-cases, or_option,
  if◌then◌else◌,
}
use linkex.Shared.Options.{◌>>=◌}
use linkex.Json.{Value, Fields, lookup, as_object, as_array}
use linkex.Draft.Merging.{distinct, distinct-append, contains-append}
use linkex.Parser.Index.{EntityIndex, urn_of_item, indexed, index_all, empty_index, new, by_urn}

abbrev is_named : Option String → String → Bool
is_named none u = false
is_named (some urn) u = urn == u

-- The last of the items that have a URN.
unfoldable pub last_with : String → List Value → Option Value
last_with u [] = none
last_with u (item ∷ items) =
    or_option (last_with u items) (if is_named (urn_of_item item) u then some item else none)

or_assoc : (a b c : Option Value) → or_option (or_option a b) c ≡ or_option a (or_option b c)
or_assoc none b c = refl
or_assoc (some _) b c = refl

get-indexed :
    (u : String) (urn : Option String) (item : Value) (index : EntityIndex)
    → get u (indexed urn item index).included
      ≡ or_option (if is_named urn u then some item else none) (get u index.included)
get-indexed u none item index = refl
get-indexed u (some urn) item index = elim (Bool-cases (urn == u)) [
  | inl e ↦ rw (get-insert urn u item index.included, e)
  | inr e ↦ rw (get-insert urn u item index.included, e)
]

-- Of an index to which items are added, a URN has the last of them that has it, or what it had.
get-index_all :
    (u : String) (items : List Value) (index : EntityIndex)
    → get u (index_all items index).included ≡ or_option (last_with u items) (get u index.included)
unfolding index_all last_with
get-index_all u [] index = refl
get-index_all u (item ∷ items) index = rw (
  get-index_all u items (indexed (urn_of_item item) item index),
  get-indexed u (urn_of_item item) item index,
  or_assoc (last_with u items) (if is_named (urn_of_item item) u then some item else none)
      (get u index.included),
)

-- `order` lists the keys of `included`, each once.
record IsOrdered (index : EntityIndex) : Type 0 where
  single : distinct index.order ≡ true
  keyed : (u : String) → contains u index.order ≡ contains_key u index.included

or_last : (a b : Bool) → (a || (b || false)) ≡ (if b then true else a)
or_last true true = refl
or_last true false = refl
or_last false true = refl
or_last false false = refl

some_if :
    (b : Bool) (item : Value) (o : Option Value)
    → is_some (if b then some item else o) ≡ (if b then true else is_some o)
some_if true item o = refl
some_if false item o = refl

-- A key of the index, asked for again.
known_key :
    (urn u : String) (index : EntityIndex)
    → contains_key urn index.included ≡ true
    → contains_key u index.included ≡ (if urn == u then true else contains_key u index.included)
known_key urn u index e = elim (Bool-cases (urn == u)) [
  | inl f ↦ rw (f, sym ((string_eq.same_iff urn u).0 f), e)
  | inr f ↦ rw f
]

indexed-IsOrdered :
    (urn : Option String) (item : Value) (index : EntityIndex)
    → IsOrdered index
    → IsOrdered (indexed urn item index)
indexed-IsOrdered none item index h = h
indexed-IsOrdered (some urn) item index h = elim (Bool-cases (contains_key urn index.included)) [
  | inl e ↦ rw e (record {
    single = h.single;
    keyed = λ u. rw (
      get-insert urn u item index.included,
      some_if (urn == u) item (get u index.included),
      h.keyed u,
      sym (known_key urn u index e),
    );
  })
  | inr e ↦ rw e (record {
    single = distinct-append index.order urn (h.keyed urn ∙ e) h.single;
    keyed = λ u. rw (
      get-insert urn u item index.included,
      some_if (urn == u) item (get u index.included),
      contains-append u index.order (urn ∷ []),
      h.keyed u,
      or_last (contains_key u index.included) (urn == u),
    );
  })
]

index_all-IsOrdered :
    (items : List Value) (index : EntityIndex) → IsOrdered index → IsOrdered (index_all items index)
unfolding index_all
index_all-IsOrdered [] index h = h
index_all-IsOrdered (item ∷ items) index h =
    index_all-IsOrdered items (indexed (urn_of_item item) item index)
      (indexed-IsOrdered (urn_of_item item) item index h)

empty_index-IsOrdered : (content : Option Fields) → IsOrdered (empty_index content)
unfolding distinct get
empty_index-IsOrdered content = record { single = refl; keyed = λ u. refl }

none_last : (o : Option Value) → or_option o none ≡ o
none_last none = refl
none_last (some _) = refl

index_all-last :
    (items : List Value) (content : Option Fields) (u : String)
    → (get u (index_all items (empty_index content)).included ≡ last_with u items)
      × (distinct (index_all items (empty_index content)).order ≡ true)
      × (contains u (index_all items (empty_index content)).order ≡ is_some (last_with u items))
unfolding get
index_all-last items content u =
    let ordered = index_all-IsOrdered items (empty_index content) (empty_index-IsOrdered content) in
    let found = get-index_all u items (empty_index content) ∙ none_last (last_with u items) in
    (found, ordered.single, ordered.keyed u ∙ ap is_some found)

-- The index of a payload that includes items is a map: a URN has the last of the items that have
-- it, where the source's comment says the first, and the order lists each URN that an item has,
-- once.
pub new-last :
    (payload : Value) (raw : Fields) (items : List Value) (index : EntityIndex) (u : String)
    → as_object payload ≡ some raw
    → (lookup "included" raw >>= as_array) ≡ some items
    → new payload ≡ some index
    → (by_urn index (some u) ≡ last_with u items)
      × (distinct index.order ≡ true)
      × (contains u index.order ≡ is_some (last_with u items))
unfolding new by_urn
new-last payload raw items index u object included made =
    let same : index_all items (empty_index (lookup "data" raw >>= as_object)) ≡ index =
      cc (rw (object, included) at made) in
    rw (sym same) (index_all-last items (lookup "data" raw >>= as_object) u)
