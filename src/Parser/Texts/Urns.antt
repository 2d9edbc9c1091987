-- ===== src/Parser/Texts/Urns.antt =====
-- URNs that are read and written.
use Prim.Native.Char.{Char, code}
use linkex.Shared.{
  ℕ, String, ◌≡◌, refl, sym, true, false, not, none, some, inl, inr, arith, ◌==◌, nat_eq,
  Bool-cases, both_true,
}
use linkex.Shared.Options.{◌>>=◌, bind-some}
use linkex.Shared.Text.{
  is_char, is_nil, begins_with, all_chars, trim, non_empty, split_once, strip_prefix, strip_if,
  take_until, ◌&◌, nil_append, cons_append,
}
use linkex.Shared.Text.Trimming.{trim_idem, all_chars-trim, all_chars-take_until, take_until_self}
use linkex.Json
use linkex.Json.{Value, as_str}
use linkex.Parser.Texts.{urn_id, ends_id, urn_of, normalise_urn, strip_paren}
use linkex.Parser.Texts.Clean.{non_empty-some}

-- What a URN's id is: not empty, trimmed, and without the characters that end one.
pub record IsId (id : String) : Type 0 where
  pub filled : is_nil id ≡ false
  pub trimmed : trim id ≡ id
  pub unended : all_chars (λ c. not (ends_id c)) id ≡ true

trim-IsId :
    (s id : String)
    → all_chars (λ c. not (ends_id c)) s ≡ true
    → non_empty (trim s) ≡ some id
    → IsId id
trim-IsId s id h e =
    let (same, kept) = non_empty-some (trim s) id e in
    record {
      filled = kept;
      trimmed = rw (sym same, trim_idem s);
      unended = rw (sym same, all_chars-trim (λ c. not (ends_id c)) s h);
    }

-- The id of any text that has one is not empty, is trimmed, and has no comma and no closing
-- parenthesis.
pub urn_id-IsId : (urn id : String) → urn_id urn ≡ some id → IsId id
unfolding urn_id
urn_id-IsId urn id h =
    let (parts, _, made) = bind-some (strip_prefix "urn:li:" urn >>= split_once b':') _ id h in
    trim-IsId (take_until ends_id (strip_paren parts.1)) id
      (all_chars-take_until ends_id (strip_paren parts.1)) made

strip_prefix-append : (p t : String) → strip_prefix p (p & t) ≡ some t
unfolding strip_prefix strip_if
strip_prefix-append String.[] t = rw (nil_append t)
strip_prefix-append (String.◌∷◌ c p) t =
    let same : (code c == code c) ≡ true = ground arith in
    rw (cons_append c p t, same, strip_prefix-append p t)

split_once-append :
    (n : ℕ) (c : Char) (s t : String)
    → is_char n c ≡ true
    → all_chars (λ d. not (is_char n d)) s ≡ true
    → split_once n (s & (String.◌∷◌ c String.[] & t)) ≡ some (s, t)
unfolding split_once all_chars
split_once-append n c String.[] t h k =
    rw (nil_append (String.◌∷◌ c String.[] & t), cons_append c "" t, h, nil_append t)
split_once-append n c (String.◌∷◌ d s) t h k = elim (Bool-cases (is_char n d)) [
  | inl e ↦ cc (rw e at k)
  | inr e ↦ rw (
    cons_append d s (String.◌∷◌ c String.[] & t),
    e,
    split_once-append n c s t h (both_true _ (all_chars (λ d. not (is_char n d)) s) k).1,
  )
]

no_paren : (id : String) → begins_with b'(' id ≡ false → strip_prefix "(" id ≡ none
unfolding strip_prefix strip_if
no_paren String.[] h = refl
no_paren (String.◌∷◌ c id) h = ground arith

non_empty_self : (id : String) → is_nil id ≡ false → non_empty id ≡ some id
non_empty_self String.[] h = cc
non_empty_self (String.◌∷◌ c id) h = refl

-- The URN of an entity without a colon and of an id that does not begin with a parenthesis has that
-- id.
pub urn_id-urn_of :
    (entity id : String)
    → all_chars (λ c. not (is_char b':' c)) entity ≡ true
    → IsId id
    → begins_with b'(' id ≡ false
    → urn_id (urn_of entity id) ≡ some id
unfolding urn_id
urn_id-urn_of entity id plain i open_ = rw (
  strip_prefix-append "urn:li:" (entity & ":" & id),
  split_once-append b':' ":" entity id refl plain,
  no_paren id open_,
  take_until_self ends_id id i.unended,
  i.trimmed,
  non_empty_self id i.filled,
)

-- A URN of whatever kind becomes one of the entity with the same id, and a normalised URN stays as
-- it is, where the entity has no colon and the id does not begin with a parenthesis.
pub normalise_urn-same_id :
    (urn entity id : String)
    → urn_id urn ≡ some id
    → all_chars (λ c. not (is_char b':' c)) entity ≡ true
    → begins_with b'(' id ≡ false
    → (normalise_urn (Json.string urn) entity ≡ some (urn_of entity id))
      × (urn_id (urn_of entity id) ≡ some id)
      × (normalise_urn (Json.string (urn_of entity id)) entity ≡ some (urn_of entity id))
unfolding normalise_urn
normalise_urn-same_id urn entity id h plain k =
    let again = urn_id-urn_of entity id plain (urn_id-IsId urn id h) k in (rw h, again, rw again)
