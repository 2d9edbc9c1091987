-- ===== src/Session/Header.antt =====
-- The cookie header that a browser would send is read back.
use Prim.{Unit}
use linkex.Shared.{
  ℕ, String, ◌≡◌, refl, sym, ap, ◌∙◌, inl, inr, Bool, true, false, not, none, some, [], ◌∷◌, ◌++◌,
  map, arith, ◌==◌, nat_eq, string_eq, Bool-cases, All, get, insert, get-insert, DistinctKeys,
}
use Prim.Native.Char.{Char}
use linkex.Shared.Text.{
  trim, trim_matches, trim_start, is_char, is_nil, is_whitespace, split, split_once, all_chars, ◌&◌,
  nil_append, cons_append,
}
use linkex.Shared.{append-nil, append_assoc}
use linkex.Session.{Cookies, add_pair, header_chunk, header_chunks, parse_cookie_header}

abbrev pub without : ℕ → Char → Bool
without n c = not (is_char n c)

split_once-append :
    (n : ℕ) (s t : String) (c : Char)
    → is_char n c ≡ true
    → all_chars (without n) s ≡ true
    → split_once n (s & String.◌∷◌ c t) ≡ some (s, t)
unfolding split_once all_chars
split_once-append n String.[] t c e h = rw (nil_append (String.◌∷◌ c t), e)
split_once-append n (String.◌∷◌ d s) t c e h = elim (Bool-cases (is_char n d)) [
  | inl f ↦ cc (rw f at h)
  | inr f ↦ rw (cons_append d s (String.◌∷◌ c t), f, split_once-append n s t c e (rw f at h))
]

split-append :
    (n : ℕ) (s t : String) (c : Char)
    → is_char n c ≡ true
    → all_chars (without n) s ≡ true
    → split n (s & String.◌∷◌ c t) ≡ s ∷ split n t
unfolding split all_chars
split-append n String.[] t c e h = rw (nil_append (String.◌∷◌ c t), e)
split-append n (String.◌∷◌ d s) t c e h = elim (Bool-cases (is_char n d)) [
  | inl f ↦ cc (rw f at h)
  | inr f ↦ rw (cons_append d s (String.◌∷◌ c t), f, split-append n s t c e (rw f at h))
]

split-single : (n : ℕ) (s : String) → all_chars (without n) s ≡ true → split n s ≡ s ∷ []
unfolding split all_chars
split-single n String.[] h = refl
split-single n (String.◌∷◌ d s) h = elim (Bool-cases (is_char n d)) [
  | inl f ↦ cc (rw f at h)
  | inr f ↦ rw (f, split-single n s (rw f at h))
]

all_chars-append :
    (p : Char → Bool) (s t : String)
    → all_chars p s ≡ true
    → all_chars p t ≡ true
    → all_chars p (s & t) ≡ true
unfolding all_chars
all_chars-append p String.[] t h k = rw (nil_append t) k
all_chars-append p (String.◌∷◌ d s) t h k = elim (Bool-cases (p d)) [
  | inl f ↦ rw (cons_append d s t, f, all_chars-append p s t (rw f at h) k)
  | inr f ↦ cc (rw f at h)
]

insert-absent :
    (k v : String) (cookies : Cookies)
    → get k cookies ≡ none
    → insert k v cookies ≡ cookies ++ (k, v) ∷ []
unfolding insert get
insert-absent k v [] h = refl
insert-absent k v ((j, w) ∷ cookies) h = elim (Bool-cases (j == k)) [
  | inl f ↦ cc (rw f at h)
  | inr f ↦ rw (f, insert-absent k v cookies (rw f at h))
]

append_empty : (s : String) → s & "" ≡ s
append_empty String.[] = nil_append ""
append_empty (String.◌∷◌ c s) = cons_append c s "" ∙ ap (String.◌∷◌ c) (append_empty s)

-- `name=value`, and the same behind a space
abbrev pair : String → String → String
pair k v = k & String.◌∷◌ "=" v

abbrev spaced : String × String → String
spaced (k, v) = String.◌∷◌ " " k & String.◌∷◌ "=" v

abbrev render_from : Cookies → String
render_from [] = ""
render_from (cookie ∷ cookies) = String.◌∷◌ ";" (spaced cookie & render_from cookies)

-- The cookies of a jar as a browser sends them.
abbrev pub render : Cookies → String
render [] = ""
render ((k, v) ∷ cookies) = pair k v & render_from cookies

-- A cookie that a header can hold: no white space at the ends, no separator inside, and a name.
pub record IsPlain (cookie : String × String) : Type 0 where
  pub name_trimmed : trim cookie.0 ≡ cookie.0
  pub named : is_nil cookie.0 ≡ false
  pub name_equals : all_chars (without b'=') cookie.0 ≡ true
  pub name_semicolon : all_chars (without b';') cookie.0 ≡ true
  pub value_trimmed : trim cookie.1 ≡ cookie.1
  pub value_semicolon : all_chars (without b';') cookie.1 ≡ true

trim-space : (s : String) → trim (String.◌∷◌ " " s) ≡ trim s
unfolding trim trim_matches trim_start is_whitespace
trim-space s = refl

header_chunk-pair :
    (k v : String) (cookies : Cookies)
    → IsPlain (k, v)
    → header_chunk (pair k v) cookies ≡ insert k v cookies
unfolding header_chunk add_pair
header_chunk-pair k v cookies h =
    rw (split_once-append b'=' k v "=" refl h.name_equals, h.name_trimmed, h.named, h.value_trimmed)

header_chunk-spaced :
    (k v : String) (cookies : Cookies)
    → IsPlain (k, v)
    → header_chunk (spaced (k, v)) cookies ≡ insert k v cookies
unfolding header_chunk add_pair all_chars
header_chunk-spaced k v cookies h = rw (
  split_once-append b'=' (String.◌∷◌ " " k) v "=" refl h.name_equals,
  trim-space k,
  h.name_trimmed,
  h.named,
  h.value_trimmed,
)

-- No cookie of the second jar has a name of the first.
abbrev Absent : Cookies → Cookies → Type 0
Absent acc [] = Unit
Absent acc ((k, _) ∷ cookies) = (get k acc ≡ none) × Absent acc cookies

insert-Absent :
    (k v : String) (acc cookies : Cookies)
    → get k cookies ≡ none
    → Absent acc cookies
    → Absent (insert k v acc) cookies
unfolding get
insert-Absent k v acc [] h a = record {}
insert-Absent k v acc ((j, w) ∷ cookies) h a = ground (
  arith,
  get-insert k j v acc,
  string_eq.same_iff k j,
  string_eq.same_iff j k,
  insert-Absent k v acc cookies,
)

header_chunks-spaced :
    (cookies acc : Cookies)
    → All IsPlain cookies
    → DistinctKeys cookies
    → Absent acc cookies
    → header_chunks (map spaced cookies) acc ≡ acc ++ cookies
unfolding header_chunks
header_chunks-spaced [] acc p d a = sym (append-nil acc)
header_chunks-spaced ((k, v) ∷ cookies) acc (q, p) (new, d) (absent, a) =
    ap (header_chunks (map spaced cookies)) (header_chunk-spaced k v acc q)
    ∙ header_chunks-spaced cookies (insert k v acc) p d (insert-Absent k v acc cookies new a)
    ∙ ap (λ x. x ++ cookies) (insert-absent k v acc absent)
    ∙ append_assoc acc ((k, v) ∷ []) cookies

all_cons :
    (p : Char → Bool) (c : Char) (s : String)
    → p c ≡ true
    → all_chars p s ≡ true
    → all_chars p (String.◌∷◌ c s) ≡ true
unfolding all_chars
all_cons p c s e h = rw (e, h)

pair_semicolon :
    (cookie : String × String) (start : String)
    → IsPlain cookie
    → all_chars (without b';') start ≡ true
    → all_chars (without b';') (start & String.◌∷◌ "=" cookie.1) ≡ true
pair_semicolon cookie start p h =
    all_chars-append (without b';') start (String.◌∷◌ "=" cookie.1) h
      (all_cons (without b';') "=" cookie.1 refl p.value_semicolon)

Absent-nil : (cookies : Cookies) → Absent [] cookies
unfolding get
Absent-nil [] = record {}
Absent-nil (cookie ∷ cookies) = (refl, Absent-nil cookies)

split-render :
    (s : String) (cookies : Cookies)
    → all_chars (without b';') s ≡ true
    → All IsPlain cookies
    → split b';' (s & render_from cookies) ≡ s ∷ map spaced cookies
split-render s [] h p = rw (append_empty s) (split-single b';' s h)
split-render s (cookie ∷ cookies) h (q, p) =
    split-append b';' s (spaced cookie & render_from cookies) ";" refl h
    ∙ ap (◌∷◌ s) (
        split-render (spaced cookie) cookies
          (pair_semicolon cookie (String.◌∷◌ " " cookie.0) q
            (all_cons (without b';') " " cookie.0 refl q.name_semicolon))
          p)

-- Reading the header that a browser sends for distinct plain cookies gives these cookies.
pub parse-render :
    (cookies : Cookies)
    → All IsPlain cookies
    → DistinctKeys cookies
    → parse_cookie_header (render cookies) ≡ cookies
unfolding parse_cookie_header header_chunks insert header_chunk add_pair split split_once
parse-render [] p d = refl
parse-render ((k, v) ∷ cookies) (q, p) (new, d) =
    ap (λ chunks. header_chunks chunks [])
      (split-render (pair k v) cookies (pair_semicolon (k, v) k q q.name_semicolon) p)
    ∙ ap (header_chunks (map spaced cookies)) (header_chunk-pair k v [] q)
    ∙ header_chunks-spaced cookies (insert k v []) p d
        (insert-Absent k v [] cookies new (Absent-nil cookies))
