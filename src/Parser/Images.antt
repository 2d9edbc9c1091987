-- ===== src/Parser/Images.antt =====
-- src/parser/common.rs: images. A width or height of an `i64` is cast to 64 bits, and the area wraps.
pub mod Largest
use linkex.Shared.{
  ℕ, ◌*◌, ◌%◌, String, Bool, true, false, Option, none, some, List, [], ◌∷◌, leb, is_some,
  if◌then◌else◌,
}
use linkex.Shared.Int.{ℤ, pos, bits_64}
use linkex.Shared.Options.{◌>>=◌, unwrap_or, filter_map}
use linkex.Shared.Sorting.{sort_by}
use linkex.Shared.Text.{◌&◌}
use linkex.Json.{Value, Fields, lookup, as_str, as_object, as_array}
use linkex.Domain.{ImageRendition, ImageSet}
use linkex.Parser.{Platform}
use linkex.Parser.Texts.{integer, field_or_null}

abbrev pub vector_image_key : String
vector_image_key = "com.linkedin.common.VectorImage"

module _ (platform : Platform) where
  unfoldable pub epoch_millis_to_datetime : Value → Option ℤ
  epoch_millis_to_datetime value = integer value >>= platform.from_timestamp_millis

  abbrev pub rendition_of : String → Fields → String → ImageRendition
  rendition_of root obj segment = record {
    url = root & segment;
    width = integer (field_or_null "width" obj);
    height = integer (field_or_null "height" obj);
    expires_at = lookup "expiresAt" obj >>= epoch_millis_to_datetime;
  }

  -- one round of the loop over the artifacts
  unfoldable pub rendition : String → Value → Option ImageRendition
  rendition root artifact = as_object artifact >>= λ obj.
      lookup "fileIdentifyingUrlPathSegment" obj >>= as_str >>= λ segment.
      some (rendition_of root obj segment)

-- the product of two `u64` in a release build
unfoldable pub area : ImageRendition → ℕ
area r =
    bits_64 (unwrap_or (pos 0) r.width)
    * bits_64 (unwrap_or (pos 0) r.height)
    % 18446744073709551616

-- the order of `Reverse(area)`
abbrev pub is_larger : ImageRendition → ImageRendition → Bool
is_larger r s = leb (area s) (area r)

abbrev pub image_set : List ImageRendition → Option ImageSet
image_set [] = none
image_set (r ∷ rs) = some (record { url = r.url; renditions = r ∷ rs })

abbrev pub vector_image_in : Fields → Option Fields
vector_image_in o =
    if is_some (lookup vector_image_key o)
    then (lookup vector_image_key o >>= as_object)
    else some o

unfoldable pub parse_vector_image : Platform → Value → Option ImageSet
parse_vector_image platform value = as_object value >>= vector_image_in >>= λ container.
    lookup "rootUrl" container >>= as_str >>= λ root.
    lookup "artifacts" container >>= as_array >>= λ artifacts.
    image_set (sort_by is_larger (filter_map (rendition platform root) artifacts))
