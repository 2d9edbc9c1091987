-- ===== src/Cache/Examples.antt =====
-- The theorems of the cache at a concrete LRU cache.
use linkex.Shared.{String, ◌≡◌, refl, true, some, [], nat_eq, string_eq, get}
use linkex.Cache.{
  CachedProfile, ProfileCache, get_memory, load_disk, save_disk, insert_memory, path_for,
}
use linkex.Cache.Samples.{Store, lru_2, plain_digest}
use linkex.Cache.Disk.{load_disk-save_disk}

abbrev ada : CachedProfile String
ada = record { profile = "ada"; inserted_at = 10; stored_at = 1000 }

abbrev cold : ProfileCache (Store String) String
cold = record { ttl = 100; directory = some "d"; entries = []; files = []; hits = 0; misses = 0 }

hit_then_expired :
    ((get_memory lru_2 plain_digest 110 "profile:ada"
        (insert_memory lru_2 plain_digest "profile:ada" ada cold)).0.hits
      ≡ 1)
    × ((get_memory lru_2 plain_digest 111 "profile:ada"
          (insert_memory lru_2 plain_digest "profile:ada" ada cold)).0.misses
        ≡ 1)
unfolding get_memory insert_memory get
hit_then_expired = (refl, refl)

load_disk-save_disk_example :
    (load_disk lru_2 plain_digest 3 1100 "profile:ada"
      (save_disk lru_2 plain_digest true "profile:ada" ada cold)).1
    ≡ some (record ada { inserted_at = 3 })
unfolding path_for
load_disk-save_disk_example =
    load_disk-save_disk lru_2 plain_digest 3 1100 "profile:ada" "profile:ada" "d/profile:ada.json"
      ada cold refl refl

abbrev stored : ProfileCache (Store String) String
stored = save_disk lru_2 plain_digest true "profile:ada" ada cold
