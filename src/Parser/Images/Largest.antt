-- ===== src/Parser/Images/Largest.antt =====
-- What `parse_vector_image` returns.
use mathlib.Core.List.{Perm}
use mathlib.Core.List.Perm
use linkex.Shared.{
  ℕ, ◌*◌, ◌%◌, String, ◌≡◌, refl, sym, ap, ◌∙◌, Bool, true, Option, none, some, List, [], ◌∷◌, leb,
  arith, All, map,
}
use linkex.Shared.Int.{ℤ, pos, bits_64}
use linkex.Shared.Options.{◌>>=◌, bind-some, filter_map, onto, map_option, unwrap_or}
use linkex.Shared.Sorting.{
  sort_by, IsSorted, IsTotal, IsTransitive, sort_by-IsSorted, sort_by-Perm, IsSorted-follows,
}
use linkex.Shared.Text.{◌&◌}
use linkex.Json
use linkex.Parser.Texts.{integer, field_or_null}
use linkex.Json.{Value, Fields, lookup, as_str, as_object, as_array}
use linkex.Domain.{ImageRendition, ImageSet}
use linkex.Parser.{Platform}
use linkex.Parser.Images.{
  rendition, rendition_of, area, is_larger, image_set, vector_image_in, parse_vector_image,
}

is_larger-IsTotal : IsTotal is_larger
is_larger-IsTotal r s h = ground arith

is_larger-IsTransitive : IsTransitive is_larger
is_larger-IsTransitive r s t h k = ground arith

-- The URL of a set is that of its first rendition.
abbrev pub LeadsWith : String → List ImageRendition → Type 0
LeadsWith url [] = ⊥
LeadsWith url (r ∷ rs) = url ≡ r.url

-- The 64 bits of the product of a width and a height, each taken as its 64 bits, or 0 where it is
-- missing.
abbrev pub pixels : ImageRendition → ℕ
pixels r =
    bits_64 (unwrap_or (pos 0) r.width)
    * bits_64 (unwrap_or (pos 0) r.height)
    % 18446744073709551616

abbrev pub as_large : ImageRendition → ImageRendition → Bool
as_large r s = leb (pixels s) (pixels r)

-- What an artifact says of itself: its path behind the root, its width and its height. One without
-- a path says nothing.
abbrev pub described : String → Value → Option (String × Option ℤ × Option ℤ)
described root artifact = as_object artifact >>= λ obj.
    lookup "fileIdentifyingUrlPathSegment" obj >>= as_str >>= λ path.
    some (root & path, integer (field_or_null "width" obj), integer (field_or_null "height" obj))

abbrev pub shown : ImageRendition → String × Option ℤ × Option ℤ
shown r = (r.url, r.width, r.height)

-- A set holds what the artifacts say of themselves, the largest first.
pub record IsLargestFirst (platform : Platform) (root : String) (artifacts : List Value)
    (set : ImageSet) : Type 0 where
  pub leading : LeadsWith set.url set.renditions
  pub sorted : IsSorted as_large set.renditions
  pub complete : Perm (map shown set.renditions) (filter_map (described root) artifacts)

as_large-follows :
    (r s : ImageRendition) → Unit {0} → Unit {0} → is_larger r s ≡ true → as_large r s ≡ true
unfolding area
as_large-follows r s _ _ h = h

All-unit : (rs : List ImageRendition) → All (λ r. Unit {0}) rs
All-unit [] = tt
All-unit (r ∷ rs) = (tt, All-unit rs)

shown-of :
    (platform : Platform) (root : String) (obj : Fields) (path : Option String)
    → map_option shown (path >>= λ segment. some (rendition_of platform root obj segment)) ≡ (
        path >>= λ p.
        some (root & p, integer (field_or_null "width" obj), integer (field_or_null "height" obj)))
shown-of platform root obj none = refl
shown-of platform root obj (some p) = refl

shown-rendition :
    (platform : Platform) (root : String) (artifact : Value)
    → map_option shown (rendition platform root artifact) ≡ described root artifact
unfolding rendition
shown-rendition platform root (Json.object obj) =
    shown-of platform root obj (lookup "fileIdentifyingUrlPathSegment" obj >>= as_str)
shown-rendition platform root v = refl

map-onto :
    (o : Option ImageRendition) (rs : List ImageRendition)
    → map shown (onto o rs) ≡ onto (map_option shown o) (map shown rs)
map-onto none rs = refl
map-onto (some r) rs = refl

shown-renditions :
    (platform : Platform) (root : String) (artifacts : List Value)
    → map shown (filter_map (rendition platform root) artifacts)
      ≡ filter_map (described root) artifacts
shown-renditions platform root [] = refl
shown-renditions platform root (v ∷ artifacts) =
    map-onto (rendition platform root v) (filter_map (rendition platform root) artifacts)
    ∙ ap (λ d. onto d (map shown (filter_map (rendition platform root) artifacts)))
        (shown-rendition platform root v)
    ∙ ap (λ ds. onto (described root v) ds) (shown-renditions platform root artifacts)

image_set-some :
    (rs : List ImageRendition) (set : ImageSet)
    → image_set rs ≡ some set
    → LeadsWith set.url set.renditions × (set.renditions ≡ rs)
image_set-some [] set h = cc
image_set-some (r ∷ rs) set h =
    let same : record { url = r.url; renditions = r ∷ rs } ≡ set = cc in rw (sym same) (refl, refl)

image_set-IsLargestFirst :
    (platform : Platform) (root : String) (artifacts : List Value) (set : ImageSet)
    → image_set (sort_by is_larger (filter_map (rendition platform root) artifacts)) ≡ some set
    → IsLargestFirst platform root artifacts set
image_set-IsLargestFirst platform root artifacts set h =
    let rs = filter_map (rendition platform root) artifacts in
    let (led, same) = image_set-some (sort_by is_larger rs) set h in
    record {
      leading = led;
      sorted =
          IsSorted-follows (λ r. Unit {0}) is_larger as_large as_large-follows set.renditions
            (All-unit set.renditions)
            (rw same (sort_by-IsSorted is_larger is_larger-IsTotal is_larger-IsTransitive rs));
      complete =
          rw (same, sym (shown-renditions platform root artifacts))
            (Perm.map shown (sort_by-Perm is_larger rs));
    }

-- The image that is read from a value is made of a `rootUrl` and `artifacts` that are in it, or in
-- its vector image: it has each artifact that has a path, as often as it is there, by falling area,
-- and its URL is that of the first.
pub parse_vector_image-IsLargestFirst :
    (platform : Platform) (value : Value) (set : ImageSet)
    → parse_vector_image platform value ≡ some set
    → (container : Fields) × (root : String) × (artifacts : List Value) × ((as_object value
          >>= vector_image_in)
        ≡ some container)
      × ((lookup "rootUrl" container >>= as_str) ≡ some root)
      × ((lookup "artifacts" container >>= as_array) ≡ some artifacts)
      × IsLargestFirst platform root artifacts set
unfolding parse_vector_image
parse_vector_image-IsLargestFirst platform value set h =
    let (container, h1, k1) = bind-some (as_object value >>= vector_image_in) _ set h in
    let (root, h2, k2) = bind-some (lookup "rootUrl" container >>= as_str) _ set k1 in
    let (artifacts, h3, k3) = bind-some (lookup "artifacts" container >>= as_array) _ set k2 in
    (
      container,
      root,
      artifacts,
      h1,
      h2,
      h3,
      image_set-IsLargestFirst platform root artifacts set k3,
    )
