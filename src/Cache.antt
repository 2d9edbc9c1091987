-- ===== src/Cache.antt =====
-- src/service/cache.rs: the cache of profiles, in memory and on disk. The LRU cache and the digest
-- of a key are parameters, as the crates lru and sha2 are not this repository's code. Times are
-- nanoseconds: `inserted_at` on the monotonic clock, `stored_at` on the wall clock since 1970. The
-- text of a file is not modelled: a file holds an entry, or a text that is none.
pub mod Crate
pub mod Expiry
pub mod Disk
mod Examples
pub mod Samples
use linkex.Shared.{
  ℕ, suc, ◌+◌, ◌-◌, ◌*◌, ◌/◌, ◌≤◌, String, Bool, not, ◌&&◌, ◌||◌, Option, none, some, List, arith,
  ltb, ◌==◌, nat_eq, string_eq, if◌then◌else◌, is_some, get, insert, remove,
}
use linkex.Shared.Int.{
  ℤ, pos, negsuc, pos_part, neg_part, sub_ℕ, ◌+ℤ◌, ◌-ℤ◌, ◌≤ℤ◌, ltb_ℤ, leb_ℤ, int_eq, +ℤ_parts,
  -ℤ_parts, eq_of_parts, int_laws,
}
use linkex.Json.{Value, Fields, bool, null, string, object, float, integer, field, end}
use linkex.Shared.Text.{◌&◌, is_nil}
use linkex.Cache.Crate.{Lru}

abbrev pub schema_version : ℕ
schema_version = 1

pub record CachedProfile (P : Type 0) : Type 0 where
  pub profile : P
  pub inserted_at : ℕ
  pub stored_at : ℕ

-- `now` and `wall` are the two clocks.
unfoldable pub age_seconds : {P : Type 0} → ℕ → ℕ → CachedProfile P → ℕ
age_seconds now wall entry =
    if ltb 0 (now - entry.inserted_at) && ltb 0 entry.stored_at
    then wall - entry.stored_at
    else now - entry.inserted_at

pub record DiskEntry (P : Type 0) : Type 0 where
  pub schema_version : ℕ
  pub key : String
  pub stored_at : ℕ
  pub profile : P

pub data File (P : Type 0) : Type 0 where
  unreadable corrupt : File P
  entry : DiskEntry P → File P

pub record ProfileCache (C P : Type 0) : Type 0 where
  pub ttl : ℕ
  pub directory : Option String
  pub entries : C
  pub files : List (String × File P)
  pub hits : ℕ
  pub misses : ℕ

-- `directory.filter(|d| !d.is_empty()).filter(|_| persist)`
unfoldable pub directory_of : Option String → Bool → Option String
directory_of none persist = none
directory_of (some d) persist = if is_nil d || not persist then none else some d

module _ {C P : Type 0} (lru : Lru C (CachedProfile P)) (digest : String → String) where
  -- A new cache over what stands on the disk, with the LRU cache that the crate makes.
  unfoldable pub new : ℕ → C → Option String → Bool → List (String × File P) → ProfileCache C P
  new ttl_seconds entries directory persist files = record {
    ttl = ttl_seconds * 1_000_000_000;
    directory = directory_of directory persist;
    entries = entries;
    files = files;
    hits = 0;
    misses = 0;
  }

  abbrev pub with_entries : C → ProfileCache C P → ProfileCache C P
  with_entries entries c = record c { entries = entries }

  found :
      ℕ
      → String
      → ProfileCache C P
      → Option (CachedProfile P) × C
      → ProfileCache C P × Option (CachedProfile P)
  found now key c (none, entries) = (record c { entries = entries; misses = c.misses + 1 }, none)
  found now key c (some e, entries) =
      if ltb c.ttl (now - e.inserted_at)
      then (record c { entries = lru.pop key entries; misses = c.misses + 1 }, none)
      else (record c { entries = entries; hits = c.hits + 1 }, some e)

  unfoldable pub get_memory :
      ℕ → String → ProfileCache C P → ProfileCache C P × Option (CachedProfile P)
  unfolding found
  get_memory now key c = found now key c (lru.get key c.entries)

  unfoldable pub path_for : String → ProfileCache C P → Option String
  path_for key c = elim c.directory [
    | none ↦ none
    | some directory ↦ some (directory & "/" & digest key & ".json")
  ]

  abbrev pub remove_file : String → ProfileCache C P → ProfileCache C P
  remove_file path c = record c { files = remove path c.files }

  unfoldable pub read :
      ℕ
      → ℕ
      → String
      → String
      → ProfileCache C P
      → Option (File P)
      → ProfileCache C P × Option (CachedProfile P)
  read now wall key path c none = (c, none)
  read now wall key path c (some unreadable) = (c, none)
  read now wall key path c (some corrupt) = (remove_file path c, none)
  read now wall key path c (some (entry e)) =
      if not (e.schema_version == schema_version) || not (e.key == key)
      then (remove_file path c, none)
      else if ltb c.ttl (wall - e.stored_at)
      then (remove_file path c, none)
      else (c, some (record { profile = e.profile; inserted_at = now; stored_at = e.stored_at }))

  unfoldable pub load :
      ℕ
      → ℕ
      → String
      → ProfileCache C P
      → Option String
      → ProfileCache C P × Option (CachedProfile P)
  load now wall key c none = (c, none)
  load now wall key c (some path) = read now wall key path c (get path c.files)

  unfoldable pub load_disk :
      ℕ → ℕ → String → ProfileCache C P → ProfileCache C P × Option (CachedProfile P)
  load_disk now wall key c = load now wall key c (path_for key c)

  unfoldable pub insert_memory : String → CachedProfile P → ProfileCache C P → ProfileCache C P
  insert_memory key e c = with_entries (lru.put key e c.entries) c

  unfoldable pub save :
      Bool → String → CachedProfile P → ProfileCache C P → Option String → ProfileCache C P
  save written key e c none = c
  save written key e c (some path) =
      if written
      then record c {
        files =
            insert path
              (entry (record {
                schema_version = schema_version;
                key = key;
                stored_at = e.stored_at;
                profile = e.profile;
              }))
              c.files;
      }
      else c

  -- `written` says whether the directory, the temporary file and the renaming succeeded.
  unfoldable pub save_disk : Bool → String → CachedProfile P → ProfileCache C P → ProfileCache C P
  save_disk written key e c = save written key e c (path_for key c)

  unfoldable pub delete : Option String → ProfileCache C P → ProfileCache C P
  delete none c = c
  delete (some path) c = remove_file path c

  unfoldable pub invalidate : String → ProfileCache C P → ProfileCache C P
  invalidate key c = delete (path_for key c) (with_entries (lru.pop key c.entries) c)

  unfoldable pub clear_memory : ProfileCache C P → ProfileCache C P
  clear_memory c = with_entries (lru.clear c.entries) c

  -- `(hits / total * 1000.0).round() / 1000.0`, in billionths
  unfoldable pub hit_rate : ℕ → ℕ → Value
  hit_rate hits total =
      if total == 0 then null else float (pos ((hits * 2000 + total) / (2 * total) * 1_000_000))

  unfoldable pub stats : ProfileCache C P → Value
  stats c = object (
      field "entries" (integer (pos (lru.len c.entries))) (
        field "ttl_seconds" (integer (pos (c.ttl / 1_000_000_000))) (
          field "hits" (integer (pos c.hits)) (
            field "misses" (integer (pos c.misses)) (
              field "hit_rate" (hit_rate c.hits (c.hits + c.misses))
                (field "persistent" (bool (is_some c.directory)) end))))))
