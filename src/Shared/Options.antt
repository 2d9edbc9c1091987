-- ===== src/Shared/Options.antt =====
-- The combinators of Rust's `Option` and iterators that the parsers chain.
use mathlib.Core.Path.{◌≡◌, refl}
use mathlib.Core.Bool.{Bool}
use mathlib.Core.Option.{Option, none, some}
use mathlib.Core.List.{List, [], ◌∷◌}
use linkex.Shared.Tests.{if◌then◌else◌, or_option}

abbrev pub onto {ℓ} : {B : Type ℓ} → Option B → List B → List B
onto none ys = ys
onto (some y) ys = y ∷ ys

module _ {ℓ κ} {A : Type ℓ} {B : Type κ} where
  infixl 20 ◌>>=◌
  -- `and_then`, and `?` in a function that returns an `Option`
  abbrev pub ◌>>=◌ : Option A → (A → Option B) → Option B
  none >>= f = none
  some a >>= f = f a

  -- `Option::map`
  abbrev pub map_option : (A → B) → Option A → Option B
  map_option f none = none
  map_option f (some a) = some (f a)

  -- `Iterator::find_map`
  abbrev pub find_map : (A → Option B) → List A → Option B
  find_map f [] = none
  find_map f (x ∷ xs) = or_option (f x) (find_map f xs)

  -- `Iterator::filter_map`
  abbrev pub filter_map : (A → Option B) → List A → List B
  filter_map f [] = []
  filter_map f (x ∷ xs) = onto (f x) (filter_map f xs)

  -- What a chain that succeeds went through.
  pub bind-some :
      (o : Option A) (f : A → Option B) (b : B)
      → (o >>= f) ≡ some b
      → (a : A) × (o ≡ some a) × (f a ≡ some b)
  bind-some none f b h = cc
  bind-some (some a) f b h = (a, refl, h)

  pub map_option-some :
      (f : A → B) (o : Option A) (b : B)
      → map_option f o ≡ some b
      → (a : A) × (o ≡ some a) × (f a ≡ b)
  map_option-some f none b h = cc
  map_option-some f (some a) b h = (a, refl, cc)

module _ {ℓ} {A : Type ℓ} where
  -- `unwrap_or`
  abbrev pub unwrap_or : A → Option A → A
  unwrap_or d none = d
  unwrap_or d (some a) = a

  -- `Option::filter`
  abbrev pub filter_option : (A → Bool) → Option A → Option A
  filter_option p none = none
  filter_option p (some a) = if p a then some a else none

  -- `Iterator::filter`
  abbrev pub filter : (A → Bool) → List A → List A
  filter p [] = []
  filter p (x ∷ xs) = let rest = filter p xs in if p x then x ∷ rest else rest

  -- `into_iter().flatten()` over options
  abbrev pub flatten : List (Option A) → List A
  flatten [] = []
  flatten (none ∷ os) = flatten os
  flatten (some a ∷ os) = a ∷ flatten os
