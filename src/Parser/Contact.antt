-- ===== src/Parser/Contact.antt =====
-- src/parser/contact.rs: the contact card of a member.
pub mod Unique
use Prim.Native.String
use linkex.Shared.{
  String, Bool, true, false, not, ◌&&◌, Option, none, some, List, [], ◌∷◌, ◌++◌, ◌==◌, string_eq,
  map, contains, is_empty, is_none, or_option, if◌then◌else◌,
}
use linkex.Shared.Options.{◌>>=◌}
use linkex.Shared.Text.{◌&◌}
use linkex.Json
use linkex.Json.{Value, Fields, lookup, as_object, as_array}
use linkex.Domain.{ContactInfo}
use linkex.Parser.{Platform}
use linkex.Parser.Texts.{text_of, first_text_of}
use linkex.Parser.Dates.{parse_date}
use linkex.Parser.Labels.{capitalized, objects_in}

-- the objects of an array
unfoldable pub list_of : Option Value → List Fields
list_of value = objects_in (value >>= as_array)

module _ (platform : Platform) where
  unfoldable pub push_unique : List String → Option String → List String
  push_unique list none = list
  push_unique list (some value) =
      if contains (platform.to_lowercase value) (map platform.to_lowercase list)
      then list
      else list ++ value ∷ []

  -- `push_unique` of what each of the items gives
  unfoldable pub push_each : (Fields → Option String) → List String → List Fields → List String
  push_each f list [] = list
  push_each f list (item ∷ items) = push_each f (push_unique list (f item)) items

  abbrev im_text : Option String → String → String
  im_text none handle = handle
  im_text (some provider) handle = capitalized platform provider & ": " & handle

  unfoldable pub im_label : Fields → Option String
  im_label item = text_of item "id" >>= λ handle. some (im_text (text_of item "provider") handle)

  abbrev pub card : Fields → ContactInfo
  card payload = record {
    emails = push_unique [] (text_of payload "emailAddress");
    phone_numbers =
        push_each (λ item. first_text_of item ("number" ∷ [])) []
          (list_of (lookup "phoneNumbers" payload));
    websites =
        push_each (λ item. first_text_of item ("url" ∷ [])) []
          (list_of (lookup "websites" payload));
    twitter_handles =
        push_each (λ item. first_text_of item ("name" ∷ [])) []
          (list_of (lookup "twitterHandles" payload));
    birthday = or_option (lookup "birthDateOn" payload) (lookup "birthDate" payload) >>= parse_date;
    address = text_of payload "address";
    ims = push_each im_label [] (list_of (lookup "ims" payload));
  }

  abbrev pub is_bare : ContactInfo → Bool
  is_bare c =
      is_empty c.emails
      && is_empty c.phone_numbers
      && is_empty c.websites
      && is_empty c.twitter_handles
      && is_empty c.ims
      && is_none c.birthday
      && is_none c.address

  unfoldable pub parse_contact_info : Value → Option ContactInfo
  parse_contact_info payload =
      as_object payload >>= λ fields. if is_bare (card fields) then none else some (card fields)
