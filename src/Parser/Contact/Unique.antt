-- ===== src/Parser/Contact/Unique.antt =====
-- The lists of a contact card have no two entries that are the same but for case.
use linkex.Shared.{
  String, ◌≡◌, refl, sym, ap, Bool, true, false, Option, none, some, inl, inr, List, [], ◌∷◌, ◌++◌,
  map, contains, Bool-cases, string_eq,
}
use linkex.Shared.Options.{bind-some}
use linkex.Json.{Value, Fields, as_object}
use linkex.Domain.{ContactInfo}
use linkex.Draft.Merging.{distinct, distinct-append}
use linkex.Parser.{Platform}
use linkex.Parser.Contact.{push_unique, push_each, card, is_bare, parse_contact_info}

map-append_last :
    (f : String → String) (xs : List String) (x : String)
    → map f (xs ++ x ∷ []) ≡ map f xs ++ f x ∷ []
map-append_last f [] x = refl
map-append_last f (y ∷ xs) x = ap (λ l. f y ∷ l) (map-append_last f xs x)

module _ (platform : Platform) where
  -- distinct in lower case
  abbrev pub is_distinct : List String → Bool
  is_distinct list = distinct (map platform.to_lowercase list)

  push_unique-is_distinct :
      (list : List String) (value : Option String)
      → is_distinct list ≡ true
      → is_distinct (push_unique platform list value) ≡ true
  unfolding push_unique
  push_unique-is_distinct list none h = h
  push_unique-is_distinct list (some value) h =
      elim (Bool-cases (contains (platform.to_lowercase value) (map platform.to_lowercase list))) [
        | inl e ↦ rw (e, h)
        | inr e ↦ rw (
          e,
          map-append_last platform.to_lowercase list value,
          distinct-append (map platform.to_lowercase list) (platform.to_lowercase value) e h,
        )
      ]

  push_each-is_distinct :
      (f : Fields → Option String) (list : List String) (items : List Fields)
      → is_distinct list ≡ true
      → is_distinct (push_each platform f list items) ≡ true
  unfolding push_each
  push_each-is_distinct f list [] h = h
  push_each-is_distinct f list (item ∷ items) h =
      push_each-is_distinct f (push_unique platform list (f item)) items
        (push_unique-is_distinct list (f item) h)

  pub record IsCard (c : ContactInfo) : Type 0 where
    pub filled : is_bare platform c ≡ false
    pub emails : is_distinct c.emails ≡ true
    pub phones : is_distinct c.phone_numbers ≡ true
    pub sites : is_distinct c.websites ≡ true
    pub handles : is_distinct c.twitter_handles ≡ true
    pub messengers : is_distinct c.ims ≡ true

  card-IsCard :
      (payload : Fields)
      → is_bare platform (card platform payload) ≡ false
      → IsCard (card platform payload)
  unfolding distinct
  card-IsCard payload h = record {
    filled = h;
    emails = push_unique-is_distinct [] _ refl;
    phones = push_each-is_distinct _ [] _ refl;
    sites = push_each-is_distinct _ [] _ refl;
    handles = push_each-is_distinct _ [] _ refl;
    messengers = push_each-is_distinct _ [] _ refl;
  }

  -- A contact card that is read from any JSON value has some entry, and no list of it has two
  -- entries that are the same in lower case.
  pub parse_contact_info-IsCard :
      (value : Value) (c : ContactInfo) → parse_contact_info platform value ≡ some c → IsCard c
  unfolding parse_contact_info
  parse_contact_info-IsCard value c h =
      let (payload, _, made) = bind-some (as_object value) _ c h in
      elim (Bool-cases (is_bare platform (card platform payload))) [
        | inl e ↦ cc (rw e at made)
        | inr e ↦
            let same : card platform payload ≡ c = cc (rw e at made) in
            rw (sym same) (card-IsCard payload e)
      ]
