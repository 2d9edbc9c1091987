-- ===== src/Shared/Int.antt =====
-- Signed 64-bit integers as integers over the native numbers, under the library's names.
-- `negsuc n` is -(n + 1).
use Prim.Native.Nat.{ℕ, suc, ◌+◌, ◌-◌, ◌*◌, ◌%◌, ◌≤◌}
use mathlib.Core.Path.{◌≡◌}
use mathlib.Core.Logic.{◌↔◌}
use mathlib.Core.Bool.{Bool, true, ◌&&◌}
use native.Mathlib.Omega.{arith}
use linkex.Shared.Tests.{ltb, leb, PartialEq, nat_eq, ◌==◌, if◌then◌else◌}

pub data ℤ : Type 0 where
  pos : ℕ → ℤ
  negsuc : ℕ → ℤ

abbrev pub pos_part : ℤ → ℕ
pos_part (pos n) = n
pos_part (negsuc n) = 0

abbrev pub neg_part : ℤ → ℕ
neg_part (pos n) = 0
neg_part (negsuc n) = suc n

-- a - b, as an integer.
abbrev pub sub_ℕ : ℕ → ℕ → ℤ
sub_ℕ a b = if leb b a then pos (a - b) else negsuc (b - a - 1)

infixl 65 ◌+ℤ◌ ◌-ℤ◌
infix 50 ◌≤ℤ◌
unfoldable pub ◌+ℤ◌ : ℤ → ℤ → ℤ
a +ℤ b = sub_ℕ (pos_part a + pos_part b) (neg_part a + neg_part b)

unfoldable pub ◌-ℤ◌ : ℤ → ℤ → ℤ
a -ℤ b = sub_ℕ (pos_part a + neg_part b) (neg_part a + pos_part b)

abbrev pub ◌≤ℤ◌ : ℤ → ℤ → Type 0
a ≤ℤ b = pos_part a + neg_part b ≤ pos_part b + neg_part a

abbrev pub ltb_ℤ : ℤ → ℤ → Bool
ltb_ℤ a b = ltb (pos_part a + neg_part b) (pos_part b + neg_part a)

abbrev pub leb_ℤ : ℤ → ℤ → Bool
leb_ℤ a b = leb (pos_part a + neg_part b) (pos_part b + neg_part a)

abbrev int_same : ℤ → ℤ → Bool
int_same a b = pos_part a + neg_part b == pos_part b + neg_part a

pub int_same_iff : (a b : ℤ) → (int_same a b ≡ true) ↔ (a ≡ b)
int_same_iff a b = ground arith

instance abbrev pub int_eq : PartialEq ℤ
int_eq = record { same = int_same; same_iff = int_same_iff }

-- One lemma for each operation lets `omega` work with the operations shut.
pub +ℤ_parts :
    (a b : ℤ)
    → pos_part (a +ℤ b) + neg_part a + neg_part b ≡ neg_part (a +ℤ b) + pos_part a + pos_part b
unfolding ◌+ℤ◌
+ℤ_parts a b = ground arith

pub -ℤ_parts :
    (a b : ℤ)
    → pos_part (a -ℤ b) + neg_part a + pos_part b ≡ neg_part (a -ℤ b) + pos_part a + neg_part b
unfolding ◌-ℤ◌
-ℤ_parts a b = ground arith

pub eq_of_parts : (a b : ℤ) → pos_part a + neg_part b ≡ pos_part b + neg_part a → a ≡ b
eq_of_parts a b h = ground arith

pub ruleset int_laws = (arith, +ℤ_parts, -ℤ_parts, eq_of_parts)

-- The least and the greatest `i64`, and Rust's arithmetic on them in a release build, which wraps.
abbrev pub max_i64 : ℕ
max_i64 = 9223372036854775807

abbrev pub is_i64 : ℤ → Bool
is_i64 n = leb (pos_part n) max_i64 && leb (neg_part n) (suc max_i64)

-- the `i64` of 64 bits
abbrev of_bits : ℕ → ℤ
of_bits r = if leb r max_i64 then pos r else negsuc (18446744073709551616 - r - 1)

-- the 64 bits of an integer
abbrev pub bits_64 : ℤ → ℕ
bits_64 (pos n) = n % 18446744073709551616
bits_64 (negsuc n) = 18446744073709551616 - 1 - n % 18446744073709551616

unfoldable pub wrap_i64 : ℤ → ℤ
wrap_i64 n = of_bits (bits_64 n)

abbrev pub times : ℕ → ℤ → ℤ
times k (pos n) = pos (n * k)
times k (negsuc n) = sub_ℕ 0 (suc n * k)

pub wrap_i64_self : (n : ℤ) → is_i64 n ≡ true → wrap_i64 n ≡ n
unfolding wrap_i64
wrap_i64_self (pos n) h = ground arith
wrap_i64_self (negsuc n) h = ground arith
