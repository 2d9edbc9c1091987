-- ===== src/Config/Reading.antt =====
-- What a value satisfies that is read from a variable.
use mathlib.Core.Path.{subst}
use linkex.Shared.{
  ℕ, ◌≤◌, String, ◌≡◌, refl, sym, Bool, true, false, not, Option, none, some, contains, string_eq,
  nat_eq, ◌==◌, arith,
}
use linkex.Config.Values.{
  Checked, ok, invalid, panics, ◌>>=?◌, Readers, Variables, nonempty_var, parse_u64, parse_usize,
  unsigned, digits_up_to,
}
use linkex.Config.{
  checked, in_range, read, read_as, log_levels, parse_log_level, parse_port, parse_positive,
  parse_bounded, port_in,
}

module _ {A B : Type 0} where
  pub bind-ok :
      (o : Checked A) (f : A → Checked B) (b : B)
      → (o >>=? f) ≡ ok b
      → (a : A) × (o ≡ ok a) × (f a ≡ ok b)
  bind-ok (ok a) f b h = (a, refl, h)
  bind-ok (invalid name reason) f b h = cc
  bind-ok panics f b h = cc

pub ok-inj : {A : Type 0} (a b : A) → ok a ≡ ok b → a ≡ b
ok-inj a b h = cc

pub checked-ok :
    {A : Type 0} (good : Bool) (name reason : String) (a b : A)
    → checked good name reason a ≡ ok b
    → (good ≡ true) × (a ≡ b)
checked-ok true name reason a b h = (refl, cc)
checked-ok false name reason a b h = cc

digits_up_to-most : (most : ℕ) (s : String) (n : ℕ) → digits_up_to most s ≡ some n → n ≤ most
unfolding digits_up_to
digits_up_to-most most s n h = ground arith

abbrev pub InRange : ℕ → ℕ → ℕ → Type 0
InRange low high n = (low ≤ n) × (n ≤ high)

module _ (readers : Readers) (vars : Variables) where
  -- What holds of the default and of each value that is parsed holds of the value that is read.
  read_as-ok :
      {A : Type 0} (P : A → Type 0) (default : A) (parse : String → Checked A)
      (value : Option String) (a : A)
      → P default
      → ((v : String) (b : A) → parse v ≡ ok b → P b)
      → read_as readers vars default parse value ≡ ok a
      → P a
  read_as-ok P default parse none a p f h = let same : default ≡ a = cc in subst P same p
  read_as-ok P default parse (some v) a p f h = f v a h

  pub read-ok :
      {A : Type 0} (P : A → Type 0) (name : String) (default : A) (parse : String → Checked A)
      (a : A)
      → P default
      → ((v : String) (b : A) → parse v ≡ ok b → P b)
      → read readers vars name default parse ≡ ok a
      → P a
  unfolding read
  read-ok P name default parse a p f h = read_as-ok P default parse (nonempty_var vars name) a p f h

  parse_bounded-InRange :
      (low high : ℕ) (reason name value : String) (n : ℕ)
      → parse_bounded readers vars low high reason name value ≡ ok n
      → InRange low high n
  unfolding parse_bounded
  parse_bounded-InRange low high reason name value n h =
      let (m, _, k) = bind-ok (parse_usize name value) _ n h in
      let (good, same) = checked-ok (in_range readers vars low high m) name reason m n k in
      rw (sym same) (ground arith)

  parse_positive-pos :
      (name value : String) (n : ℕ) → parse_positive readers vars name value ≡ ok n → 1 ≤ n
  unfolding parse_positive
  parse_positive-pos name value n h =
      let (m, _, k) = bind-ok (parse_u64 name value) _ n h in
      let (good, same) = checked-ok (not (m == 0)) name "must be at least 1" m n k in
      rw (sym same) (ground arith)

  port_in-ok :
      (value : String) (found : Option ℕ) (n : ℕ)
      → found ≡ unsigned 65535 value
      → port_in readers vars value found ≡ ok n
      → InRange 1 65535 n
  unfolding unsigned digits_up_to
  port_in-ok value none n e h = cc
  port_in-ok value (some m) n e h =
      let (good, same) = checked-ok (not (m == 0)) "PORT" "port must be nonzero" m n h in
      let most = digits_up_to-most 65535 _ m (sym e) in rw (sym same) (ground arith)

  pub parse_port-InRange :
      (value : String) (n : ℕ) → parse_port readers vars value ≡ ok n → InRange 1 65535 n
  unfolding parse_port
  parse_port-InRange value n h = port_in-ok value (unsigned 65535 value) n refl h

  pub parse_log_level-known :
      (value level : String)
      → parse_log_level readers vars value ≡ ok level
      → contains level log_levels ≡ true
  unfolding parse_log_level
  parse_log_level-known value level h =
      let (good, same) = checked-ok (contains (readers.upper value) log_levels) _ _ _ level h in
      rw (sym same, good)

  -- A bounded number, read from its variable.
  pub bounded-InRange :
      (low high default : ℕ) (reason name : String) (n : ℕ)
      → low ≤ default
      → default ≤ high
      → read readers vars name default (parse_bounded readers vars low high reason name) ≡ ok n
      → InRange low high n
  bounded-InRange low high default reason name n lo hi h =
      read-ok (InRange low high) name default (parse_bounded readers vars low high reason name) n
        (lo, hi) (parse_bounded-InRange low high reason name) h

  pub positive-pos :
      (default : ℕ) (name : String) (n : ℕ)
      → 1 ≤ default
      → read readers vars name default (parse_positive readers vars name) ≡ ok n
      → 1 ≤ n
  positive-pos default name n lo h =
      read-ok (λ m. 1 ≤ m) name default (parse_positive readers vars name) n lo
        (parse_positive-pos name) h
