-- ===== src/Cache/Expiry.antt =====
-- The time to live of an entry in memory.
use linkex.Shared.{
  ℕ, ◌-◌, ◌≤◌, ◌<◌, String, ◌≡◌, sym, ap, ◌∙◌, inl, inr, none, some, arith, ltb, nat_eq, string_eq,
  if◌then◌else◌, lt→ltb, Bool-cases, Option-cases,
}
use linkex.Cache.Crate.{Lru, IsLru}
use linkex.Cache.{CachedProfile, ProfileCache, get_memory, insert_memory}

module _ {C P : Type 0} (lru : Lru C (CachedProfile P)) (digest : String → String) where
  -- The lookup of a key that the LRU cache does not have, or has.
  pub found-none :
      (now : ℕ) (key : String) (c : ProfileCache C P)
      → (lru.get key c.entries).0 ≡ none
      → (get_memory lru digest now key c).1 ≡ none
  unfolding get_memory
  found-none now key c h = rw h

  pub found-some :
      (now : ℕ) (key : String) (c : ProfileCache C P) (e : CachedProfile P)
      → (lru.get key c.entries).0 ≡ some e
      → (get_memory lru digest now key c).1
        ≡ (if ltb c.ttl (now - e.inserted_at) then none else some e)
  unfolding get_memory
  found-some now key c e h = elim (Bool-cases (ltb c.ttl (now - e.inserted_at))) [
    | inl g ↦ rw (h, g)
    | inr g ↦ rw (h, g)
  ]

  popped :
      (now : ℕ) (key : String) (c : ProfileCache C P) (e : CachedProfile P)
      → (lru.get key c.entries).0 ≡ some e
      → c.ttl < now - e.inserted_at
      → ((entries : C) → (lru.get key (lru.pop key entries)).0 ≡ none)
      → (lru.get key (get_memory lru digest now key c).0.entries).0 ≡ none
  unfolding get_memory
  popped now key c e h late law =
      rw (h, lt→ltb c.ttl (now - e.inserted_at) late, law (lru.get key c.entries).1)

  -- No lookup in memory answers with an entry that has been there for longer than the time to live.
  pub get_memory-fresh :
      (now : ℕ) (key : String) (c : ProfileCache C P) (e : CachedProfile P)
      → (get_memory lru digest now key c).1 ≡ some e
      → now - e.inserted_at ≤ c.ttl
  get_memory-fresh now key c e h = elim (Option-cases (lru.get key c.entries).0) [
    | inl g ↦ cc (found-none now key c g)
    | inr (e', g) ↦ elim (Bool-cases (ltb c.ttl (now - e'.inserted_at))) [
      | inl k ↦ cc (rw k at (found-some now key c e' g))
      | inr k ↦
          let same : some e' ≡ some e = sym (rw k at (found-some now key c e' g)) ∙ h in
          let entry : e' ≡ e = cc in
          let inserted : e'.inserted_at ≡ e.inserted_at = ap (λ x. x.inserted_at) entry in
          let fresh : now - e'.inserted_at ≤ c.ttl = ground arith in omega arith
    ]
  ]

  module _ (laws : IsLru lru) where
    -- A stored entry is found until its time to live has passed, and not after it.
    pub get_memory-insert_memory :
        (now : ℕ) (key : String) (c : ProfileCache C P) (e : CachedProfile P)
        → (get_memory lru digest now key (insert_memory lru digest key e c)).1
          ≡ (if ltb c.ttl (now - e.inserted_at) then none else some e)
    unfolding insert_memory
    get_memory-insert_memory now key c e =
        found-some now key (insert_memory lru digest key e c) e (laws.get-put key e c.entries)

    -- A lookup of an entry whose time to live has passed drops it: no later lookup finds it, at
    -- whatever time.
    pub get_memory-expired :
        (now later : ℕ) (key : String) (c : ProfileCache C P) (e : CachedProfile P)
        → c.ttl < now - e.inserted_at
        → (get_memory lru digest later key
            (get_memory lru digest now key (insert_memory lru digest key e c)).0).1
          ≡ none
    unfolding insert_memory
    get_memory-expired now later key c e late =
        let c' = insert_memory lru digest key e c in
        found-none later key (get_memory lru digest now key c').0 (
          popped now key c' e (laws.get-put key e c.entries) late
            (λ entries. laws.get-pop key entries))
