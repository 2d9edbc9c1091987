-- ===== src/Parser/Index/Search.antt =====
-- The search for an image: what it finds, and how deep.
use linkex.Shared.{
  ℕ, zero, suc, ◌+◌, ◌≤◌, ◌≡◌, sym, Bool, true, false, Option, none, some, inl, inr, ltb,
  Bool-cases, if◌then◌else◌, arith,
}
use linkex.Json
use linkex.Json.{Value, Fields, Items}
use linkex.Parser.Index.{
  find_vector_image, find_in_values, find_in_items, is_image, max_depth, or_next,
}

or_next-some :
    (a b : Option Fields) (o : Fields)
    → (a ≡ some o → is_image o ≡ true)
    → (b ≡ some o → is_image o ≡ true)
    → or_next a b ≡ some o
    → is_image o ≡ true
or_next-some none b o f g h = g h
or_next-some (some m) b o f g h = f h

cut_off :
    (c : Bool) (a : Option Fields) (o : Fields) → (if c then none else a) ≡ some o → a ≡ some o
cut_off true a o h = cc
cut_off false a o h = h

here_or_inside :
    (m o : Fields) (a : Option Fields)
    → (a ≡ some o → is_image o ≡ true)
    → (if is_image m then some m else a) ≡ some o
    → is_image o ≡ true
here_or_inside m o a f h = elim (Bool-cases (is_image m)) [
  | inl e ↦ let same : m ≡ o = cc (rw e at h) in rw (sym same, e)
  | inr e ↦ f (rw e at h)
]

mutual
  unfolding find_vector_image

  -- An object that the search finds has a `rootUrl` and `artifacts`.
  find_vector_image-is_image :
      (node : Value) (depth : ℕ) (o : Fields)
      → find_vector_image node depth ≡ some o
      → is_image o ≡ true
  find_vector_image-is_image (Json.object m) depth o h =
      here_or_inside m o (find_in_values m (depth + 1)) (find_in_values-is_image m (depth + 1) o)
        (cut_off (ltb max_depth depth) _ o h)
  find_vector_image-is_image (Json.array items) depth o h =
      find_in_items-is_image items (depth + 1) 12 o (cut_off (ltb max_depth depth) _ o h)
  find_vector_image-is_image _ depth o h = cc

  find_in_values-is_image :
      (m : Fields) (depth : ℕ) (o : Fields) → find_in_values m depth ≡ some o → is_image o ≡ true
  find_in_values-is_image Json.end depth o h = cc
  find_in_values-is_image (Json.field k v m) depth o h =
      or_next-some (find_vector_image v depth) (find_in_values m depth) o
        (find_vector_image-is_image v depth o) (find_in_values-is_image m depth o) h

  find_in_items-is_image :
      (vs : Items) (depth left : ℕ) (o : Fields)
      → find_in_items vs depth left ≡ some o
      → is_image o ≡ true
  find_in_items-is_image Json.nil depth left o h = cc
  find_in_items-is_image (Json.cons v vs) depth zero o h = cc
  find_in_items-is_image (Json.cons v vs) depth (suc left) o h =
      or_next-some (find_vector_image v depth) (find_in_items vs depth left) o
        (find_vector_image-is_image v depth o) (find_in_items-is_image vs depth left o) h

within :
    (depth : ℕ) (a : Option Fields) (o : Fields)
    → (if ltb max_depth depth then none else a) ≡ some o
    → depth ≤ max_depth
within depth a o h = elim (Bool-cases (ltb max_depth depth)) [
  | inl e ↦ cc (rw e at h)
  | inr e ↦ ground arith
]

-- The search for an image finds only an object with a `rootUrl` that is a text and `artifacts` that
-- are an array, and nothing in a node that is more than six levels down.
pub find_vector_image-found :
    (node : Value) (depth : ℕ) (o : Fields)
    → find_vector_image node depth ≡ some o
    → (is_image o ≡ true) × (depth ≤ max_depth)
unfolding find_vector_image
find_vector_image-found (Json.object m) depth o h =
    (find_vector_image-is_image (Json.object m) depth o h, within depth _ o h)
find_vector_image-found (Json.array items) depth o h =
    (find_vector_image-is_image (Json.array items) depth o h, within depth _ o h)
find_vector_image-found _ depth o h = cc
