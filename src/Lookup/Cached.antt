-- ===== src/Lookup/Cached.antt =====
-- What a lookup finds in the cache, and what it leaves there.
pub mod Again
use mathlib.Core.Path.{subst}
use linkex.Shared.{
  ℕ, ◌-◌, ◌≤◌, String, ◌≡◌, refl, sym, ap, ◌∙◌, Bool, true, false, Option, none, some, inl, inr,
  ltb, arith, Bool-cases, Option-cases, if◌then◌else◌,
}
use linkex.Shared.Options.{map_option-some}
use linkex.Error.{Result, ok, err}
use linkex.Domain.{Profile}
use linkex.Cache.{
  CachedProfile, ProfileCache, get_memory, load_disk, insert_memory, save_disk, save, path_for,
}
use linkex.Cache.Crate.{Lru, IsLru}
use linkex.Cache.Expiry.{found-some}
use linkex.Repository.{Upstream, Trace}
use linkex.Parser.{Platform}
use linkex.Urls.{Url, ProfileRef, cache_key, parse_profile_url}
use linkex.Lookup.{
  ProfileResult, Service, Readings, entry_of, hit, miss, keep, finish, result_of, repository_fetch,
  fetch_once, from_memory, from_disk, get_ref, get_parsed, get_profile,
}

module _ {C U : Type 0} (lru : Lru C (CachedProfile Profile)) (digest : String → String)
    (platform : Platform) (parse : String → Option Url) (upstream : Upstream U)
    (laws : IsLru lru) where
  -- The memory has an entry under the key.
  abbrev Holds : String → CachedProfile Profile → Service C U → Type 0
  Holds key e s = (lru.get key s.cache.entries).0 ≡ some e

  save-entries :
      (written : Bool) (key : String) (e : CachedProfile Profile) (c : ProfileCache C Profile)
      (path : Option String)
      → (save lru digest written key e c path).entries ≡ c.entries
  unfolding save
  save-entries written key e c none = refl
  save-entries true key e c (some path) = refl
  save-entries false key e c (some path) = refl

  keep-Holds :
      (key : String) (r : Readings) (p : Profile) (s : Service C U)
      → Holds key
          (entry_of p r.inserted r.inserted_wall)
          (keep lru digest platform parse upstream key r (ok p) s)
  unfolding keep save_disk insert_memory
  keep-Holds key r p s =
      rw (save-entries r.written key (entry_of p r.saved r.saved_wall) _ _)
        (laws.get-put key (entry_of p r.inserted r.inserted_wall) s.cache.entries)

  -- A lookup that fetched leaves the profile in memory.
  record Fetched (key : String) (r : Readings) (res : ProfileResult) (s' : Service C U)
      : Type 0 where
    profile : Profile
    kept : Holds key (entry_of profile r.inserted r.inserted_wall) s'
    shown : res.profile ≡ profile

  -- A lookup that did not made no call.
  record Found (res : ProfileResult) (s s' : Service C U) : Type 0 where
    untouched : s'.client ≡ s.client
    free : res.upstream_calls ≡ 0

  Told : Bool → String → Readings → ProfileResult → Service C U → Service C U → Type 0
  Told true key r res s s' = Found res s s'
  Told false key r res s s' = Fetched key r res s'

  Answer : String → Readings → Service C U → Service C U × Result ProfileResult → Type 0
  unfolding Told
  Answer key r s (s', ok res) = Told res.cached key r res s s'
  Answer key r s (s', err e) = Unit

  finish-Answer :
      (key : String) (r : Readings) (s now : Service C U) (t : Trace U × Result Profile)
      → Answer key r s (finish lru digest platform parse upstream key r now t)
  unfolding Answer
  finish-Answer key r s now (t, err e) = tt
  finish-Answer key r s now (t, ok p) = record {
    profile = p;
    kept = keep-Holds key r p (record now { client = t.client });
    shown = refl;
  }

  fetch_once-Answer :
      (ref : ProfileRef) (key : String) (r : Readings) (s now : Service C U)
      → Answer key r s (fetch_once lru digest platform parse upstream ref key r now)
  unfolding fetch_once
  fetch_once-Answer ref key r s now =
      finish-Answer key r s now
        (repository_fetch lru digest platform parse upstream ref r now.client)

  from_disk-Answer :
      (ref : ProfileRef) (key : String) (r : Readings) (s : Service C U)
      (c : ProfileCache C Profile) (found : ProfileCache C Profile × Option (CachedProfile Profile))
      → Answer key r s
          (from_disk lru digest platform parse upstream ref key r (record s { cache = c }) found)
  unfolding Answer
  from_disk-Answer ref key r s c (d, some e) = record { untouched = refl; free = refl }
  from_disk-Answer ref key r s c (d, none) = fetch_once-Answer ref key r s (record s { cache = d })

  from_memory-Answer :
      (ref : ProfileRef) (key : String) (r : Readings) (s : Service C U)
      (found : ProfileCache C Profile × Option (CachedProfile Profile))
      → Answer key r s (from_memory lru digest platform parse upstream ref key r s found)
  unfolding Answer
  from_memory-Answer ref key r s (c, some e) = record { untouched = refl; free = refl }
  from_memory-Answer ref key r s (c, none) =
      from_disk-Answer ref key r s c (load_disk lru digest r.looked r.looked_wall key c)

  get_ref-Answer :
      (ref : ProfileRef) (refresh : Bool) (r : Readings) (s : Service C U)
      → Answer
          (cache_key platform ref)
          r
          s
          (get_ref lru digest platform parse upstream ref refresh r s)
  unfolding get_ref
  get_ref-Answer ref true r s = fetch_once-Answer ref (cache_key platform ref) r s _
  get_ref-Answer ref false r s =
      from_memory-Answer ref (cache_key platform ref) r s
        (get_memory lru digest r.looked (cache_key platform ref) s.cache)

  -- A lookup that succeeds is of a URL that is valid.
  valid :
      (url : String) (refresh : Bool) (r : Readings) (s s' : Service C U) (res : ProfileResult)
      → get_profile lru digest platform parse upstream url refresh r s ≡ some (s', ok res)
      → (ref : ProfileRef) × (parse_profile_url platform parse url ≡ some (ok ref))
        × (get_ref lru digest platform parse upstream ref refresh r s ≡ (s', ok res))
  unfolding get_profile
  valid url refresh r s s' res h =
      let (parsed, is, made) =
        map_option-some _ (parse_profile_url platform parse url) (s', ok res) h in
      of_parsed parsed is made
    where
      of_parsed :
          (parsed : Result ProfileRef)
          → parse_profile_url platform parse url ≡ some parsed
          → get_parsed lru digest platform parse upstream refresh r s parsed ≡ (s', ok res)
          → (ref : ProfileRef) × (parse_profile_url platform parse url ≡ some (ok ref))
            × (get_ref lru digest platform parse upstream ref refresh r s ≡ (s', ok res))
      of_parsed (err e) is made = cc
      of_parsed (ok ref) is made = (ref, is, made)

  outcome_fetched :
      (b : Bool) (key : String) (r : Readings) (res : ProfileResult) (s s' : Service C U)
      → b ≡ false
      → Told b key r res s s'
      → Fetched key r res s'
  unfolding Told
  outcome_fetched true key r res s s' h t = cc
  outcome_fetched false key r res s s' h t = t

  outcome_cached :
      (b : Bool) (key : String) (r : Readings) (res : ProfileResult) (s s' : Service C U)
      → b ≡ true
      → Told b key r res s s'
      → Found res s s'
  unfolding Told
  outcome_cached false key r res s s' h t = cc
  outcome_cached true key r res s s' h t = t

  outcome_of_read :
      (url : String) (refresh : Bool) (r : Readings) (s s' : Service C U) (res : ProfileResult)
      (ref : ProfileRef)
      → get_ref lru digest platform parse upstream ref refresh r s ≡ (s', ok res)
      → Told res.cached (cache_key platform ref) r res s s'
  unfolding Answer
  outcome_of_read url refresh r s s' res ref h =
      subst (Answer (cache_key platform ref) r s) h (get_ref-Answer ref refresh r s)
