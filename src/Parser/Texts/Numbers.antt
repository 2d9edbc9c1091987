-- ===== src/Parser/Texts/Numbers.antt =====
-- Numbers that are written out and read again.
use Prim.Native.Char.{Char, code}
use linkex.Shared.{
  ℕ, zero, suc, ◌+◌, ◌-◌, ◌*◌, ◌/◌, ◌%◌, ◌≤◌, ◌<◌, String, ◌≡◌, refl, sym, Bool, true, false, not,
  ◌&&◌, some, inl, inr, arith, ltb, leb, Bool-cases, le→leb, ltb→lt, ap, [], ◌∷◌, All,
}
use linkex.Shared.Int.{ℤ, pos, is_i64, max_i64}
use linkex.Shared.Text.{
  is_nil, is_whitespace, all_chars, trim, digit, char_or, decimal, decimal_onto,
}
use linkex.Shared.Text.Trimming.{trim_self}
use linkex.Json
use linkex.Json.{Value}
use linkex.Parser.Texts.{integer, in_i64, parse_digits, read_digits, is_ascii_digit}

-- What holds of each number below ten, in order.
below_ten :
    (P : ℕ → Type 0) → All P (0 ∷ 1 ∷ 2 ∷ 3 ∷ 4 ∷ 5 ∷ 6 ∷ 7 ∷ 8 ∷ 9 ∷ []) → (n : ℕ) → n < 10 → P n
below_ten P p zero h = p.0
below_ten P p (suc zero) h = p.1.0
below_ten P p (suc (suc zero)) h = p.1.1.0
below_ten P p (suc (suc (suc zero))) h = p.1.1.1.0
below_ten P p (suc (suc (suc (suc zero)))) h = p.1.1.1.1.0
below_ten P p (suc (suc (suc (suc (suc zero))))) h = p.1.1.1.1.1.0
below_ten P p (suc (suc (suc (suc (suc (suc zero)))))) h = p.1.1.1.1.1.1.0
below_ten P p (suc (suc (suc (suc (suc (suc (suc zero))))))) h = p.1.1.1.1.1.1.1.0
below_ten P p (suc (suc (suc (suc (suc (suc (suc (suc zero)))))))) h = p.1.1.1.1.1.1.1.1.0
below_ten P p (suc (suc (suc (suc (suc (suc (suc (suc (suc zero))))))))) h = p.1.1.1.1.1.1.1.1.1.0
below_ten P p (suc (suc (suc (suc (suc (suc (suc (suc (suc (suc n)))))))))) h =
    absurd (omega (arith, h))

digit-code : (n : ℕ) → n < 10 → code (digit n) ≡ 48 + n
unfolding char_or
digit-code =
    below_ten (λ n. code (digit n) ≡ 48 + n)
      (refl, (refl, (refl, (refl, (refl, (refl, (refl, (refl, (refl, (refl, tt))))))))))

digit-ascii : (n : ℕ) → n < 10 → is_ascii_digit (digit n) ≡ true
unfolding char_or
digit-ascii =
    below_ten (λ n. is_ascii_digit (digit n) ≡ true)
      (refl, (refl, (refl, (refl, (refl, (refl, (refl, (refl, (refl, (refl, tt))))))))))

digit-solid : (n : ℕ) → n < 10 → not (is_whitespace (digit n)) ≡ true
unfolding char_or is_whitespace
digit-solid =
    below_ten (λ n. not (is_whitespace (digit n)) ≡ true)
      (refl, (refl, (refl, (refl, (refl, (refl, (refl, (refl, (refl, (refl, tt))))))))))

-- One digit, read after a number.
read_digit :
    (k n : ℕ) (rest : String)
    → n < 10
    → read_digits k (String.◌∷◌ (digit n) rest) ≡ read_digits (k * 10 + n) rest
unfolding read_digits
read_digit k n rest h =
    let value : k * 10 + (code (digit n) - 48) ≡ k * 10 + n = omega (arith, digit-code n h) in
    ap (λ m. read_digits m rest) value

-- Reading the digits of a number that is written in front of others.
read_digits-decimal_onto :
    (fuel n : ℕ) (rest : String)
    → n < fuel
    → read_digits 0 (decimal_onto fuel n rest) ≡ read_digits n rest
unfolding decimal_onto
read_digits-decimal_onto zero n rest h = omega (arith, h)
read_digits-decimal_onto (suc fuel) n rest h = elim (Bool-cases (ltb n 10)) [
  | inl e ↦
      let alone : 0 * 10 + n ≡ n = omega arith in rw (e, read_digit 0 n rest (ltb→lt n 10 e), alone)
  | inr e ↦
      let large : 10 ≤ n = ground arith in
      let whole : n / 10 * 10 + n % 10 ≡ n = omega arith in
      rw (
        e,
        read_digits-decimal_onto fuel (n / 10) (String.◌∷◌ (digit (n % 10)) rest) (omega arith),
        read_digit (n / 10) (n % 10) rest (omega arith),
        whole,
      )
]

all_chars-decimal_onto :
    (p : Char → Bool) (all : (n : ℕ) → n < 10 → p (digit n) ≡ true) (fuel n : ℕ) (rest : String)
    → all_chars p rest ≡ true
    → all_chars p (decimal_onto fuel n rest) ≡ true
unfolding all_chars decimal_onto
all_chars-decimal_onto p all zero n rest h = h
all_chars-decimal_onto p all (suc fuel) n rest h = elim (Bool-cases (ltb n 10)) [
  | inl e ↦ rw (e, all n (ltb→lt n 10 e), h)
  | inr e ↦ rw e (
      all_chars-decimal_onto p all fuel (n / 10) (String.◌∷◌ (digit (n % 10)) rest)
        (rw (all (n % 10) (omega arith), h)))
]

-- A number always has a digit.
decimal_onto-filled :
    (fuel n : ℕ) (rest : String) → n < fuel → is_nil (decimal_onto fuel n rest) ≡ false
unfolding decimal_onto
decimal_onto-filled zero n rest h = absurd (omega (arith, h))
decimal_onto-filled (suc fuel) n rest h = elim (Bool-cases (ltb n 10)) [
  | inl e ↦ rw e
  | inr e ↦
      let large : 10 ≤ n = ground arith in
      rw (e, decimal_onto-filled fuel (n / 10) (String.◌∷◌ (digit (n % 10)) rest) (omega arith))
]

parse_digits-decimal : (n : ℕ) → n ≤ max_i64 → parse_digits (decimal n) ≡ some (pos n)
unfolding parse_digits decimal in_i64 all_chars read_digits
parse_digits-decimal n h =
    let least : leb n max_i64 ≡ true = le→leb n max_i64 h in
    rw (
      decimal_onto-filled (suc n) n "" (omega arith),
      all_chars-decimal_onto is_ascii_digit digit-ascii (suc n) n "" refl,
      read_digits-decimal_onto (suc n) n "" (omega arith),
      least,
    )

trim-decimal : (n : ℕ) → trim (decimal n) ≡ decimal n
unfolding decimal all_chars
trim-decimal n =
    trim_self (decimal n)
      (all_chars-decimal_onto (λ c. not (is_whitespace c)) digit-solid (suc n) n "" refl)

-- The text of a number that an `i64` holds is read as that number.
pub integer-decimal : (n : ℕ) → n ≤ max_i64 → integer (Json.string (decimal n)) ≡ some (pos n)
unfolding integer
integer-decimal n h = rw (trim-decimal n, parse_digits-decimal n h)

in_i64-some : (z n : ℤ) → in_i64 z ≡ some n → is_i64 n ≡ true
unfolding in_i64
in_i64-some z n h = elim (Bool-cases (is_i64 z)) [
  | inl e ↦ let same : z ≡ n = cc (rw e at h) in rw (sym same, e)
  | inr e ↦ cc (rw e at h)
]

parse_digits-some : (s : String) (n : ℤ) → parse_digits s ≡ some n → is_i64 n ≡ true
unfolding parse_digits
parse_digits-some s n h = elim (Bool-cases (not (is_nil s) && all_chars is_ascii_digit s)) [
  | inl e ↦ in_i64-some (pos (read_digits 0 s)) n (rw e at h)
  | inr e ↦ cc (rw e at h)
]

-- An integer that is read from any JSON value is one that an `i64` holds.
pub integer-is_i64 : (value : Value) (n : ℤ) → integer value ≡ some n → is_i64 n ≡ true
unfolding integer
integer-is_i64 (Json.integer z) n h = in_i64-some z n h
integer-is_i64 (Json.string s) n h = parse_digits-some (trim s) n h
integer-is_i64 _ n h = cc
