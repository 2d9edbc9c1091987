-- ===== src/Cache/Samples.antt =====
-- A concrete LRU cache of two entries, which meets the laws.
use linkex.Shared.{
  ℕ, zero, suc, String, ◌≡◌, refl, sym, ◌∙◌, ◌≢◌, inl, inr, false, Option, none, some, List, [],
  ◌∷◌, arith, ◌==◌, nat_eq, string_eq, Bool-cases, length, get, remove, get-remove,
}
use linkex.Cache.Crate.{Lru, IsLru}
use linkex.Cache.{CachedProfile}

abbrev pub plain_digest : String → String
plain_digest key = key

abbrev pub Store : Type 0 → Type 0
Store P = List (String × CachedProfile P)

other_key : (key k : String) → k ≢ key → (key == k) ≡ false
other_key key k ne = elim (Bool-cases (key == k)) [
  | inl g ↦ absurd (ne (sym ((string_eq.same_iff key k).0 g)))
  | inr g ↦ g
]

module _ {P : Type 0} where
  abbrev move_to_front :
      Option (CachedProfile P) → String → Store P → Option (CachedProfile P) × Store P
  move_to_front none key store = (none, store)
  move_to_front (some e) key store = (some e, (key, e) ∷ remove key store)

  abbrev first : ℕ → Store P → Store P
  first zero store = []
  first (suc n) [] = []
  first (suc n) (x ∷ store) = x ∷ first n store

  -- The most recently used entry stands first; the capacity is two.
  abbrev pub lru_2 : Lru (Store P) (CachedProfile P)
  lru_2 = record {
    get = λ key store. move_to_front (get key store) key store;
    put = λ key e store. first 2 ((key, e) ∷ remove key store);
    pop = λ key store. remove key store;
    clear = λ store. [];
    len = λ store. length store;
  }

  found_value :
      (key : String) (o : Option (CachedProfile P)) (store : Store P)
      → (move_to_front o key store).0 ≡ o
  found_value key none store = refl
  found_value key (some e) store = refl

  get-front :
      (key k : String) (e : CachedProfile P) (store : Store P)
      → get key store ≡ some e
      → get k ((key, e) ∷ remove key store) ≡ get k store
  unfolding get
  get-front key k e store h = ground (arith, get-remove key k store, string_eq.same_iff key k)

  moved :
      (key k : String) (o : Option (CachedProfile P)) (store : Store P)
      → get key store ≡ o
      → get k (move_to_front o key store).1 ≡ get k store
  moved key k none store h = refl
  moved key k (some e) store h = get-front key k e store h

  pub lru_2-IsLru : IsLru lru_2
  unfolding get
  lru_2-IsLru = record {
    get-put = λ key e store. rw ((string_eq.same_iff key key).1 refl);
    get-pop = λ key store.
        found_value key _ _ ∙ get-remove key key store ∙ rw ((string_eq.same_iff key key).1 refl);
    get-pop_ne = λ key k store ne.
        found_value k _ _
        ∙ get-remove key k store
        ∙ rw (other_key key k ne) (sym (found_value k _ _));
    get-get = λ key k store.
        found_value k _ _ ∙ moved key k (get key store) store refl ∙ sym (found_value k _ _);
  }
