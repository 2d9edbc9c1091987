-- ===== src/Cache/Disk.antt =====
-- Entries on the disk, and their way back into memory.
use linkex.Shared.{
  ℕ, ◌+◌, ◌-◌, ◌≤◌, ◌<◌, String, ◌≡◌, refl, sym, ap, ◌∙◌, inl, inr, true, false, not, ◌&&◌, ◌||◌,
  Option, none, some, List, arith, ltb, ◌==◌, nat_eq, string_eq, if◌then◌else◌, Bool-cases,
  Option-cases, get, insert, remove, get-insert, get-remove,
}
use linkex.Shared.Text.{◌&◌}
use linkex.Cache.Crate.{Lru, IsLru}
use linkex.Cache.{
  CachedProfile, ProfileCache, File, unreadable, corrupt, entry, schema_version, get_memory,
  load_disk, load, read, save, save_disk, delete, invalidate, path_for, insert_memory, age_seconds,
}
use linkex.Cache.Expiry.{found-none, get_memory-insert_memory}

module _ {C P : Type 0} (lru : Lru C (CachedProfile P)) (digest : String → String) where
  -- What is read is fresh on the wall clock, has been in memory since now, and leaves the time to
  -- live as it is.
  abbrev Sound : ℕ → ℕ → ProfileCache C P → ProfileCache C P × Option (CachedProfile P) → Type 0
  Sound now wall c (c', none) = c'.ttl ≡ c.ttl
  Sound now wall c (c', some e) =
      (c'.ttl ≡ c.ttl) × (e.inserted_at ≡ now) × (wall - e.stored_at ≤ c.ttl)

  read-Sound :
      (now wall : ℕ) (key path : String) (c : ProfileCache C P) (file : Option (File P))
      → Sound now wall c (read lru digest now wall key path c file)
  unfolding read
  read-Sound now wall key path c none = refl
  read-Sound now wall key path c (some unreadable) = refl
  read-Sound now wall key path c (some corrupt) = refl
  read-Sound now wall key path c (some (entry e)) =
      elim (Bool-cases (not (e.schema_version == schema_version) || not (e.key == key))) [
        | inl g ↦ rw g refl
        | inr g ↦ rw g (elim (Bool-cases (ltb c.ttl (wall - e.stored_at))) [
          | inl h ↦ rw h refl
          | inr h ↦ rw h (refl, refl, ground arith)
        ])
      ]

  load_disk-Sound :
      (now wall : ℕ) (key : String) (c : ProfileCache C P)
      → Sound now wall c (load_disk lru digest now wall key c)
  unfolding load_disk load
  load_disk-Sound now wall key c = elim (Option-cases (path_for lru digest key c)) [
    | inl g ↦ rw g refl
    | inr (path, g) ↦ rw g (read-Sound now wall key path c (get path c.files))
  ]

  Sound-some :
      (now wall : ℕ) (c : ProfileCache C P) (x : ProfileCache C P × Option (CachedProfile P))
      (e : CachedProfile P)
      → Sound now wall c x
      → x.1 ≡ some e
      → (x.0.ttl ≡ c.ttl) × (e.inserted_at ≡ now) × (wall - e.stored_at ≤ c.ttl)
  Sound-some now wall c (c', none) e s h = cc
  Sound-some now wall c (c', some e') e s h =
      let same : e' ≡ e = cc in
      let inserted = ap (λ x. x.inserted_at) same in
      let stored = ap (λ x. x.stored_at) same in
      let (ttl, since, within) = s in (ttl, sym inserted ∙ since, omega (arith, stored, within))

  abbrev saved : String → CachedProfile P → File P
  saved key e = entry (record {
    schema_version = schema_version;
    key = key;
    stored_at = e.stored_at;
    profile = e.profile;
  })

  read-saved :
      (now wall : ℕ) (key k path : String) (e : CachedProfile P) (c : ProfileCache C P)
      → (read lru digest now wall k path c (some (saved key e))).1 ≡ (
          if key == k && not (ltb c.ttl (wall - e.stored_at))
          then some (record e { inserted_at = now })
          else none)
  unfolding read
  read-saved now wall key k path e c = elim (Bool-cases (key == k)) [
    | inl g ↦
        rw g (elim (Bool-cases (ltb c.ttl (wall - e.stored_at))) [ inl h ↦ rw h | inr h ↦ rw h ])
    | inr g ↦ rw g
  ]

  path_for-same :
      (key k : String) (c : ProfileCache C P)
      → digest key ≡ digest k
      → path_for lru digest key c ≡ path_for lru digest k c
  unfolding path_for
  path_for-same key k c same = elim (Option-cases c.directory) [
    | inl g ↦ rw g
    | inr (directory, g) ↦ rw g (ap (λ x. some (directory & "/" & x & ".json")) same)
  ]

  path_for-files :
      (key : String) (c : ProfileCache C P) (entries : C) (files : List (String × File P))
      → path_for lru digest key (record c { files = files; entries = entries })
        ≡ path_for lru digest key c
  unfolding path_for
  path_for-files key c entries files = refl

  saved_at :
      (now wall : ℕ) (key k path : String) (e : CachedProfile P) (c : ProfileCache C P)
      → path_for lru digest key c ≡ some path
      → path_for lru digest k c ≡ some path
      → (load_disk lru digest now wall k (save_disk lru digest true key e c)).1 ≡ (
          if key == k && not (ltb c.ttl (wall - e.stored_at))
          then some (record e { inserted_at = now })
          else none)
  unfolding load_disk load save_disk save
  saved_at now wall key k path e c at_key at_k =
      let c' = record c { files = insert path (saved key e) c.files } in
      let found : get path (insert path (saved key e) c.files) ≡ some (saved key e) =
        get-insert path path (saved key e) c.files ∙ rw ((string_eq.same_iff path path).1 refl) in
      rw at_key (
        rw (path_for-files k c c.entries (insert path (saved key e) c.files) ∙ at_k)
          (rw found (read-saved now wall key k path e c')))

  -- The copy on the disk that was saved is loaded, as stored then and inserted now, until its time
  -- to live has passed on the wall clock; under another key it is not loaded, not even if the
  -- digests agree.
  pub load_disk-save_disk :
      (now wall : ℕ) (key k path : String) (e : CachedProfile P) (c : ProfileCache C P)
      → path_for lru digest key c ≡ some path
      → digest key ≡ digest k
      → (load_disk lru digest now wall k (save_disk lru digest true key e c)).1 ≡ (
          if key == k && not (ltb c.ttl (wall - e.stored_at))
          then some (record e { inserted_at = now })
          else none)
  load_disk-save_disk now wall key k path e c at_key same =
      saved_at now wall key k path e c at_key (sym (path_for-same key k c same) ∙ at_key)

  module _ (laws : IsLru lru) where
    -- An entry that was read from the disk is served from memory for one more time to live, counted
    -- from the reading; its age is by then the age it was read at and the time since.
    pub get_memory-reloaded :
        (now wall d : ℕ) (key : String) (c : ProfileCache C P) (e : CachedProfile P)
        → (load_disk lru digest now wall key c).1 ≡ some e
        → 0 < d
        → d ≤ c.ttl
        → 0 < e.stored_at
        → ((get_memory lru digest
              (now + d)
              key
              (insert_memory lru digest key e (load_disk lru digest now wall key c).0)).1
            ≡ some e)
          × (age_seconds (now + d) (wall + d) e ≡ wall + d - e.stored_at)
    unfolding insert_memory age_seconds
    get_memory-reloaded now wall d key c e loaded positive within stored =
        let (ttl, since, _) =
          Sound-some now wall c (load_disk lru digest now wall key c) e
            (load_disk-Sound now wall key c) loaded in
        let served : ltb (load_disk lru digest now wall key c).0.ttl (now + d - e.inserted_at)
            ≡ false =
          ground (arith, ttl, since) in
        (
          get_memory-insert_memory lru digest laws (now + d) key
                (load_disk lru digest now wall key c).0 e
              ∙ rw served,
          ground (arith, since),
        )

    popped :
        (now : ℕ) (key : String) (c : ProfileCache C P)
        → (get_memory lru digest now key (invalidate lru digest key c)).1 ≡ none
    unfolding invalidate delete
    popped now key c = elim (Option-cases (path_for lru digest key c)) [
      | inl g ↦ rw g (
          found-none lru digest now key (record c { entries = lru.pop key c.entries })
            (laws.get-pop key c.entries))
      | inr (path, g) ↦ rw g (
          found-none lru digest now key
            (record c { entries = lru.pop key c.entries; files = remove path c.files })
            (laws.get-pop key c.entries))
    ]

    deleted :
        (now wall : ℕ) (key : String) (c : ProfileCache C P)
        → (load_disk lru digest now wall key (invalidate lru digest key c)).1 ≡ none
    unfolding invalidate delete load_disk load read
    deleted now wall key c = elim (Option-cases (path_for lru digest key c)) [
      | inl g ↦ rw g (rw (path_for-files key c (lru.pop key c.entries) c.files ∙ g))
      | inr (path, g) ↦
          let gone : get path (remove path c.files) ≡ none =
            get-remove path path c.files ∙ rw ((string_eq.same_iff path path).1 refl) in
          rw g
            (rw (path_for-files key c (lru.pop key c.entries) (remove path c.files) ∙ g) (rw gone))
    ]

    -- After an invalidation the key is found neither in memory nor on the disk, at any time.
    pub invalidate-gone :
        (now later wall : ℕ) (key : String) (c : ProfileCache C P)
        → ((get_memory lru digest now key (invalidate lru digest key c)).1 ≡ none)
          × ((load_disk lru digest later wall key (invalidate lru digest key c)).1 ≡ none)
    invalidate-gone now later wall key c = (popped now key c, deleted later wall key c)
