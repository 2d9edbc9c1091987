-- ===== src/Shared/Sorting.antt =====
-- `sort_by_key`: a stable sort. `first a b` says that `a` may stand before `b`, as an equal key may.
use mathlib.Core.Path.{◌≡◌}
use mathlib.Core.Logic.{inl, inr}
use mathlib.Core.Bool.{Bool, true, false}
use mathlib.Core.List.{List, [], ◌∷◌}
use mathlib.Core.List.{Perm}
use mathlib.Core.List.Perm
use linkex.Shared.Tests.{Bool-cases, if◌then◌else◌}
use linkex.Shared.Lists.{All}

module _ {ℓ} {A : Type ℓ} (first : A → A → Bool) where
  unfoldable pub insert_sorted : A → List A → List A
  insert_sorted x [] = x ∷ []
  insert_sorted x (y ∷ ys) =
      let rest = insert_sorted x ys in if first x y then x ∷ y ∷ ys else y ∷ rest

  unfoldable pub sort_by : List A → List A
  sort_by [] = []
  sort_by (x ∷ xs) = insert_sorted x (sort_by xs)

  -- Each element may stand before every one after it.
  abbrev pub IsSorted : List A → Type 0
  IsSorted [] = Unit
  IsSorted (x ∷ xs) = All (λ y. first x y ≡ true) xs × IsSorted xs

  abbrev pub IsTotal : Type ℓ
  IsTotal = (x y : A) → first x y ≡ false → first y x ≡ true

  abbrev pub IsTransitive : Type ℓ
  IsTransitive = (x y z : A) → first x y ≡ true → first y z ≡ true → first x z ≡ true

  module _ {κ} (P : A → Type κ) where
    insert_sorted-All : (x : A) (ys : List A) → P x → All P ys → All P (insert_sorted x ys)
    unfolding insert_sorted
    insert_sorted-All x [] p h = (p, tt)
    insert_sorted-All x (y ∷ ys) p (q, h) = elim (Bool-cases (first x y)) [
      | inl e ↦ rw e (p, (q, h))
      | inr e ↦ rw e (q, insert_sorted-All x ys p h)
    ]

    -- What holds of each element holds of each after sorting.
    pub sort_by-All : (xs : List A) → All P xs → All P (sort_by xs)
    unfolding sort_by
    sort_by-All [] h = tt
    sort_by-All (x ∷ xs) (p, h) = insert_sorted-All x (sort_by xs) p (sort_by-All xs h)

  insert_sorted-Perm : (x : A) (ys : List A) → Perm (insert_sorted x ys) (x ∷ ys)
  unfolding insert_sorted
  insert_sorted-Perm x [] = Perm.rfl
  insert_sorted-Perm x (y ∷ ys) = elim (Bool-cases (first x y)) [
    | inl e ↦ rw e Perm.rfl
    | inr e ↦ rw e (Perm.trans (Perm.cons y (insert_sorted-Perm x ys)) (Perm.swap x y ys))
  ]

  -- Sorting keeps the elements, each as often as it was there.
  pub sort_by-Perm : (xs : List A) → Perm (sort_by xs) xs
  unfolding sort_by
  sort_by-Perm [] = Perm.rfl
  sort_by-Perm (x ∷ xs) =
      Perm.trans (insert_sorted-Perm x (sort_by xs)) (Perm.cons x (sort_by-Perm xs))

  module _ (total : IsTotal) (trans : IsTransitive) where
    All-after :
        (x y : A) (ys : List A)
        → first x y ≡ true
        → All (λ z. first y z ≡ true) ys
        → All (λ z. first x z ≡ true) ys
    All-after x y [] e h = tt
    All-after x y (z ∷ ys) e (g, h) = (trans x y z e g, All-after x y ys e h)

    insert_sorted-IsSorted : (x : A) (ys : List A) → IsSorted ys → IsSorted (insert_sorted x ys)
    unfolding insert_sorted
    insert_sorted-IsSorted x [] h = (tt, tt)
    insert_sorted-IsSorted x (y ∷ ys) (g, h) = elim (Bool-cases (first x y)) [
      | inl e ↦ rw e ((e, All-after x y ys e g), (g, h))
      | inr e ↦ rw e (
        insert_sorted-All (λ z. first y z ≡ true) x ys (total x y e) g,
        insert_sorted-IsSorted x ys h,
      )
    ]

    pub sort_by-IsSorted : (xs : List A) → IsSorted (sort_by xs)
    unfolding sort_by
    sort_by-IsSorted [] = tt
    sort_by-IsSorted (x ∷ xs) = insert_sorted-IsSorted x (sort_by xs) (sort_by-IsSorted xs)

-- A list that is sorted by one order is sorted by another that follows from it, between the elements
-- of which something holds.
module _ {ℓ κ} {A : Type ℓ} (P : A → Type κ) (first second : A → A → Bool)
    (follows : (x y : A) → P x → P y → first x y ≡ true → second x y ≡ true) where
  All-follows :
      (x : A) (ys : List A)
      → P x
      → All P ys
      → All (λ y. first x y ≡ true) ys
      → All (λ y. second x y ≡ true) ys
  All-follows x [] p h k = tt
  All-follows x (y ∷ ys) p (q, h) (e, k) = (follows x y p q e, All-follows x ys p h k)

  pub IsSorted-follows : (xs : List A) → All P xs → IsSorted first xs → IsSorted second xs
  IsSorted-follows [] h s = tt
  IsSorted-follows (x ∷ xs) (p, h) (a, s) = (All-follows x xs p h a, IsSorted-follows xs h s)
