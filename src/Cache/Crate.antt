-- ===== src/Cache/Crate.antt =====
-- The `LruCache` of the crate lru, as an interface: the operations that src/service/cache.rs calls,
-- and what the documentation says of them.
use linkex.Shared.{String, ℕ, Option, none, some, ◌≡◌, ◌≢◌, string_eq}

pub record Lru (C V : Type 0) : Type 0 where
  -- the value, and the cache in which its key is the most recently used one
  pub get : String → C → Option V × C
  pub put : String → V → C → C
  pub pop : String → C → C
  pub clear : C → C
  pub len : C → ℕ

-- For a capacity of at least one.
pub record IsLru {C V : Type 0} (l : Lru C V) : Type 0 where
  pub get-put : (key : String) (v : V) (c : C) → (l.get key (l.put key v c)).0 ≡ some v
  pub get-pop : (key : String) (c : C) → (l.get key (l.pop key c)).0 ≡ none
  pub get-pop_ne : (key k : String) (c : C) → k ≢ key → (l.get k (l.pop key c)).0 ≡ (l.get k c).0
  -- a lookup changes the order of use only
  pub get-get : (key k : String) (c : C) → (l.get k (l.get key c).1).0 ≡ (l.get k c).0
