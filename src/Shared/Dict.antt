-- ===== src/Shared/Dict.antt =====
-- `HashMap` as an association list with one entry for each key.
use mathlib.Core.Path.{◌≡◌, refl}
use mathlib.Core.Option.{Option, none, some}
use mathlib.Core.Bool.{Bool}
use mathlib.Core.List.{List, [], ◌∷◌}
use native.Mathlib.Omega.{arith}
use linkex.Shared.Tests.{PartialEq, ◌==◌, if◌then◌else◌, is_some}

-- `Option::filter`
abbrev pub kept {ℓ} : {V : Type ℓ} → (V → Bool) → Option V → Option V
kept keep none = none
kept keep (some v) = if keep v then some v else none

module _ {ℓ} {K V : Type ℓ} ⦃p : PartialEq K⦄ where
  -- `HashMap::get`
  unfoldable pub get : K → List (K × V) → Option V
  get key [] = none
  get key ((k, v) ∷ entries) = if k == key then some v else get key entries

  -- `HashMap::remove`
  unfoldable pub remove : K → List (K × V) → List (K × V)
  remove key [] = []
  remove key ((k, v) ∷ entries) =
      let rest = remove key entries in if k == key then rest else (k, v) ∷ rest

  -- `HashMap::insert`: an entry with the key is overwritten where it stands.
  unfoldable pub insert : K → V → List (K × V) → List (K × V)
  insert key v [] = (key, v) ∷ []
  insert key v ((k, w) ∷ entries) =
      if k == key then (key, v) ∷ entries else (k, w) ∷ insert key v entries

  pub get-remove :
      (key k : K) (entries : List (K × V))
      → get k (remove key entries) ≡ (if key == k then none else get k entries)
  unfolding get remove
  get-remove key k [] = ground arith
  get-remove key k ((j, w) ∷ entries) =
      ground (arith, get-remove key k entries, p.same_iff key k, p.same_iff j key, p.same_iff j k)

  pub get-insert :
      (key k : K) (v : V) (entries : List (K × V))
      → get k (insert key v entries) ≡ (if key == k then some v else get k entries)
  unfolding get insert
  get-insert key k v [] = refl
  get-insert key k v ((j, w) ∷ entries) =
      ground (arith, get-insert key k v entries, p.same_iff key k, p.same_iff j key, p.same_iff j k)

  abbrev pub contains_key : K → List (K × V) → Bool
  contains_key key entries = is_some (get key entries)

  -- `HashMap::retain`, by a test on the value
  unfoldable pub retain : (V → Bool) → List (K × V) → List (K × V)
  retain keep [] = []
  retain keep ((k, v) ∷ entries) =
      let rest = retain keep entries in if keep v then (k, v) ∷ rest else rest

  -- No key stands twice.
  abbrev pub DistinctKeys : List (K × V) → Type ℓ
  DistinctKeys [] = Unit
  DistinctKeys ((k, _) ∷ entries) = (get k entries ≡ none) × DistinctKeys entries

  pub insert-DistinctKeys :
      (key : K) (v : V) (entries : List (K × V))
      → DistinctKeys entries
      → DistinctKeys (insert key v entries)
  unfolding insert get
  insert-DistinctKeys key v [] h = (refl, tt)
  insert-DistinctKeys key v ((k, w) ∷ entries) (h, hs) = ground (
    arith,
    p.same_iff k key,
    p.same_iff key k,
    get-insert key k v entries,
    insert-DistinctKeys key v entries hs,
  )

  pub get-retain :
      (keep : V → Bool) (k : K) (entries : List (K × V))
      → DistinctKeys entries
      → get k (retain keep entries) ≡ kept keep (get k entries)
  unfolding get retain
  get-retain keep k [] h = refl
  get-retain keep k ((j, w) ∷ entries) (h, hs) =
      ground (arith, p.same_iff j k, get-retain keep k entries hs)

  pub retain-DistinctKeys :
      (keep : V → Bool) (entries : List (K × V))
      → DistinctKeys entries
      → DistinctKeys (retain keep entries)
  unfolding retain
  retain-DistinctKeys keep [] h = tt
  retain-DistinctKeys keep ((k, w) ∷ entries) (h, hs) =
      ground (arith, get-retain keep k entries hs, retain-DistinctKeys keep entries hs)
