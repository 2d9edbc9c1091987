-- ===== src/Endpoints/Spelled.antt =====
-- src/linkedin/endpoints.rs: which bytes an encoded path segment stands for.
use linkex.Shared.{
  ℕ, zero, suc, ◌+◌, ◌*◌, ◌/◌, ◌%◌, String, ◌≡◌, refl, inl, inr, Bool, true, false, Option, some,
  ltb, not, contains, List, [], ◌∷◌, ◌++◌, arith, nat_eq, string_eq, Bool-cases, sym, ap, ◌&&◌,
  ◌==◌, none,
}
use mathlib.Core.Path.{subst}
use Prim.Native.Char.{Char, char, code, IsScalar}
use linkex.Shared.Text.{char_or}
use linkex.Endpoints.{is_unreserved, utf8, nibble, percent_all, seg}
use linkex.Urls.Decoding.{hex_digit, as_bytes}

-- The characters that part a URL into its pieces, by their codes.
abbrev pub delimiters : List ℕ
delimiters =
    b':' ∷ b'/' ∷ b'?' ∷ b'#' ∷ b'[' ∷ b']' ∷ b'@' ∷ b'!' ∷ b'$' ∷ b'&' ∷ 39 ∷ b'(' ∷ b')' ∷ b'*'
    ∷ b'+' ∷ b',' ∷ b';' ∷ b'=' ∷ []

-- A visible character of ASCII that is no delimiter.
abbrev pub is_safe : Char → Bool
is_safe c = ltb 32 (code c) && ltb (code c) 127 && not (contains (code c) delimiters)

-- One that may stand for itself: a percent sign begins an escape.
abbrev pub is_plain : Char → Bool
is_plain c = is_safe c && not (code c == b'%')

unreserved-is_plain : (c : Char) → is_unreserved (code c) ≡ true → is_plain c ≡ true
unfolding is_unreserved
unreserved-is_plain c h = ground arith

pub unreserved-is_safe : (c : Char) → is_unreserved (code c) ≡ true → is_safe c ≡ true
unfolding is_unreserved
unreserved-is_safe c h = ground arith

-- The text spells the bytes: each is a plain character, or two hexadecimal digits after a `%`.
pub data Spells : String → List ℕ → Type 0 where
  done : Spells String.[] []
  plain :
      (c : Char) (s : String) (bytes : List ℕ)
      → is_plain c ≡ true
      → Spells s bytes
      → Spells (String.◌∷◌ c s) (code c ∷ bytes)
  escaped :
      (x y : Char) (h l : ℕ) (s : String) (bytes : List ℕ)
      → hex_digit (code x) ≡ some h
      → hex_digit (code y) ≡ some l
      → Spells s bytes
      → Spells (String.◌∷◌ "%" (String.◌∷◌ x (String.◌∷◌ y s))) ((h * 16 + l) ∷ bytes)

scalar_bound : (n : ℕ) → IsScalar n → ltb n 0x110000 ≡ true
scalar_bound n h = ground arith

code_bound : (c : Char) → ltb (code c) 0x110000 ≡ true
code_bound (char n h) = scalar_bound n h

abbrev all_below : ℕ → (ℕ → Bool) → Bool
all_below zero p = true
all_below (suc k) p = p k && all_below k p

all_below-at : (k : ℕ) (p : ℕ → Bool) (n : ℕ) → all_below k p ≡ true → ltb n k ≡ true → p n ≡ true
all_below-at zero p n h k = ground arith
all_below-at (suc k) p n h l = elim (Bool-cases (n == k)) [
  | inl e ↦ subst (λ m. p m ≡ true) (sym ((nat_eq.same_iff n k).0 e)) (ground arith)
  | inr e ↦ all_below-at k p n (ground arith) (ground arith)
]

abbrev is_value : ℕ → Option ℕ → Bool
is_value n none = false
is_value n (some m) = m == n

is_value-some : (n : ℕ) (o : Option ℕ) → is_value n o ≡ true → o ≡ some n
is_value-some n none h = cc
is_value-some n (some m) h = ap some ((nat_eq.same_iff m n).0 h)

nibble_value : (n : ℕ) → ltb n 16 ≡ true → hex_digit (code (nibble n)) ≡ some n
unfolding nibble hex_digit char_or
nibble_value n h =
    is_value-some n _ (all_below-at 16 (λ m. is_value m (hex_digit (code (nibble m)))) n refl h)

pub data AreBytes : List ℕ → Type 0 where
  none_left : AreBytes []
  one_more : (b : ℕ) (bs : List ℕ) → ltb b 256 ≡ true → AreBytes bs → AreBytes (b ∷ bs)

digits : (b : ℕ) → b / 16 * 16 + b % 16 ≡ b
digits b = omega arith

percent_all-Spells :
    (bs : List ℕ) (s : String) (bytes : List ℕ)
    → AreBytes bs
    → Spells s bytes
    → Spells (percent_all bs s) (bs ++ bytes)
unfolding percent_all
percent_all-Spells [] s bytes none_left k = k
percent_all-Spells (b ∷ bs) s bytes (one_more _ _ h hs) k =
    subst (λ d. Spells (percent_all (b ∷ bs) s) (d ∷ (bs ++ bytes))) (digits b)
      (escaped _ _ (b / 16) (b % 16) _ _ (nibble_value (b / 16) (ground arith))
        (nibble_value (b % 16) (ground arith)) (percent_all-Spells bs s bytes hs k))

utf8-AreBytes : (n : ℕ) → ltb n 0x110000 ≡ true → AreBytes (utf8 n)
unfolding utf8
utf8-AreBytes n h = elim (Bool-cases (ltb n 0x80)) [
  | inl e ↦ rw e (one_more _ _ (ground arith) none_left)
  | inr e ↦ elim (Bool-cases (ltb n 0x800)) [
    | inl f ↦ rw (e, f) (one_more _ _ (ground arith) (one_more _ _ (ground arith) none_left))
    | inr f ↦ elim (Bool-cases (ltb n 0x10000)) [
      | inl g ↦
          rw (e, f, g)
            (one_more _ _ (ground arith)
              (one_more _ _ (ground arith) (one_more _ _ (ground arith) none_left)))
      | inr g ↦
          rw (e, f, g)
            (one_more _ _ (ground arith) (
              one_more _ _ (ground arith)
                (one_more _ _ (ground arith) (one_more _ _ (ground arith) none_left))))
    ]
  ]
]

ascii : (n : ℕ) → is_unreserved n ≡ true → ltb n 0x80 ≡ true
unfolding is_unreserved
ascii n h = ground arith

unreserved-utf8 : (n : ℕ) → is_unreserved n ≡ true → utf8 n ≡ n ∷ []
unfolding is_unreserved utf8
unreserved-utf8 n h = rw (ascii n h)

pub seg-Spells : (s : String) → Spells (seg s) (as_bytes s)
unfolding seg as_bytes
seg-Spells String.[] = done
seg-Spells (String.◌∷◌ c s) = elim (Bool-cases (is_unreserved (code c))) [
  | inl e ↦
      rw (e, unreserved-utf8 (code c) e)
        (plain c (seg s) (as_bytes s) (unreserved-is_plain c e) (seg-Spells s))
  | inr e ↦ rw e (
      percent_all-Spells (utf8 (code c)) (seg s) (as_bytes s)
        (utf8-AreBytes (code c) (code_bound c)) (seg-Spells s))
]
