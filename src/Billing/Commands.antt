-- ===== src/Billing/Commands.antt =====
-- The Redis hash commands that src/billing.rs sends, as an interface. A field of a hash is read as
-- text or as an integer. The laws are those of the Redis documentation.
use linkex.Shared.{String, ◌≡◌, Option, some, nat_eq, string_eq}
use linkex.Shared.Int.{ℤ, ◌+ℤ◌, int_eq}

pub record Redis (S : Type 0) : Type 0 where
  -- HGET key field
  pub hget_text : String → String → S → Option String
  pub hget_int : String → String → S → Option ℤ
  -- HSETNX key field value
  pub hsetnx_text : String → String → String → S → S
  pub hsetnx_int : String → String → ℤ → S → S
  -- HINCRBY key field increment, with the new value
  pub hincrby : String → String → ℤ → S → S × ℤ

-- What HINCRBY does to a field that holds an integer, and that it touches no other key.
pub record IsRedis {S : Type 0} (r : Redis S) : Type 0 where
  pub hincrby_value :
      (k f : String) (d n : ℤ) (s : S) → r.hget_int k f s ≡ some n → (r.hincrby k f d s).1 ≡ n +ℤ d
  pub hget-hincrby :
      (k f : String) (d n : ℤ) (s : S)
      → r.hget_int k f s ≡ some n
      → r.hget_int k f (r.hincrby k f d s).0 ≡ some (n +ℤ d)
  pub hget-hincrby_text :
      (k f j g : String) (d : ℤ) (s : S) → r.hget_text j g (r.hincrby k f d s).0 ≡ r.hget_text j g s
  pub hget-hincrby_ne :
      (k f j g : String) (d : ℤ) (s : S)
      → (k ≡ j → ⊥)
      → r.hget_int j g (r.hincrby k f d s).0 ≡ r.hget_int j g s
