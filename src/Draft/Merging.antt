-- ===== src/Draft/Merging.antt =====
-- Lists that are merged without repetition.
use linkex.Shared.{append-nil, append_assoc}
use linkex.Shared.{
  String, ◌≡◌, refl, sym, ap, ◌∙◌, inl, inr, Bool, true, false, not, ◌&&◌, ◌||◌, List, [], ◌∷◌,
  ◌++◌, arith, ◌==◌, nat_eq, string_eq, if◌then◌else◌, Bool-cases, contains,
}
use linkex.Draft.{merge_lists}

pub contains-append :
    (x : String) (xs ys : List String) → contains x (xs ++ ys) ≡ (contains x xs || contains x ys)
contains-append x [] ys = refl
contains-append x (y ∷ xs) ys = elim (Bool-cases (y == x)) [
  | inl e ↦ rw e
  | inr e ↦ rw (e, contains-append x xs ys)
]

-- What is new of the incoming items.
unfoldable pub added : List String → List String → List String
added merged [] = []
added merged (item ∷ incoming) =
    let known = added merged incoming in
    let new = item ∷ added (merged ++ item ∷ []) incoming in
    if contains item merged then known else new

-- The existing items stand first, in their order, and the new ones follow in theirs.
pub merge_lists-added :
    (merged incoming : List String) → merge_lists merged incoming ≡ merged ++ added merged incoming
unfolding merge_lists added
merge_lists-added merged [] = sym (append-nil merged)
merge_lists-added merged (item ∷ incoming) = elim (Bool-cases (contains item merged)) [
  | inl e ↦ rw e (merge_lists-added merged incoming)
  | inr e ↦ rw e (
      merge_lists-added (merged ++ item ∷ []) incoming
      ∙ append_assoc merged (item ∷ []) (added (merged ++ item ∷ []) incoming))
]

or_false : (m : Bool) → m ≡ (m || false)
or_false true = refl
or_false false = refl

or_shift : (m i n : Bool) → ((m || (i || false)) || n) ≡ (m || (i || n))
or_shift true i n = refl
or_shift false true n = refl
or_shift false false n = refl

or_known : (m i n : Bool) → (i ≡ true → m ≡ true) → (m || n) ≡ (m || (i || n))
or_known true i n h = refl
or_known false true n h = cc (h refl)
or_known false false n h = refl

-- An item is in the merged list if and only if it is in one of the two.
pub contains-merge_lists :
    (x : String) (merged incoming : List String)
    → contains x (merge_lists merged incoming) ≡ (contains x merged || contains x incoming)
unfolding merge_lists
contains-merge_lists x merged [] = or_false (contains x merged)
contains-merge_lists x merged (item ∷ incoming) = elim (Bool-cases (contains item merged)) [
  | inl e ↦ rw e (
      contains-merge_lists x merged incoming
      ∙ or_known (contains x merged) (item == x) (contains x incoming)
          (λ same. ap (λ y. contains y merged) (sym ((string_eq.same_iff item x).0 same)) ∙ e))
  | inr e ↦ rw e (
      contains-merge_lists x (merged ++ item ∷ []) incoming
      ∙ ap (λ b. b || contains x incoming) (contains-append x merged (item ∷ []))
      ∙ or_shift (contains x merged) (item == x) (contains x incoming))
]

-- No item stands twice.
unfoldable pub distinct : List String → Bool
distinct [] = true
distinct (x ∷ xs) = not (contains x xs) && distinct xs

pub distinct-append :
    (xs : List String) (item : String)
    → contains item xs ≡ false
    → distinct xs ≡ true
    → distinct (xs ++ item ∷ []) ≡ true
unfolding distinct
distinct-append [] item h d = refl
distinct-append (x ∷ xs) item h d =
    let other : (x == item) ≡ false = ground arith in
    let reversed : (item == x) ≡ false =
      ground (arith, string_eq.same_iff x item, string_eq.same_iff item x) in
    rw (contains-append x xs (item ∷ []), reversed) (ground (arith, distinct-append xs item))

merge_lists-distinct :
    (merged incoming : List String)
    → distinct merged ≡ true
    → distinct (merge_lists merged incoming) ≡ true
unfolding merge_lists
merge_lists-distinct merged [] d = d
merge_lists-distinct merged (item ∷ incoming) d = elim (Bool-cases (contains item merged)) [
  | inl e ↦ rw e (merge_lists-distinct merged incoming d)
  | inr e ↦
      rw e (merge_lists-distinct (merged ++ item ∷ []) incoming (distinct-append merged item e d))
]

-- Merging two lists: the existing items stay in front in their order, an item is in the result if
-- and only if it is in one of the lists, and if no existing item stands twice none of the result does.
pub merge_lists-union :
    (x : String) (merged incoming : List String)
    → distinct merged ≡ true
    → (merge_lists merged incoming ≡ merged ++ added merged incoming)
      × (contains x (merge_lists merged incoming) ≡ (contains x merged || contains x incoming))
      × (distinct (merge_lists merged incoming) ≡ true)
merge_lists-union x merged incoming d = (
  merge_lists-added merged incoming,
  contains-merge_lists x merged incoming,
  merge_lists-distinct merged incoming d,
)
