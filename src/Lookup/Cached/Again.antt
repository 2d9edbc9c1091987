-- ===== src/Lookup/Cached/Again.antt =====
-- A lookup after another of the same URL.
use mathlib.Core.Path.{subst}
use linkex.Repository.{Trace}
use linkex.Shared.{
  ◌-◌, ◌≤◌, String, ◌≡◌, refl, sym, ap, Bool, true, false, Option, none, some, ltb, arith,
}
use linkex.Error.{Result, ok, err}
use linkex.Domain.{Profile}
use linkex.Cache.{CachedProfile, ProfileCache, get_memory, invalidate}
use linkex.Cache.Crate.{Lru, IsLru}
use linkex.Cache.Expiry.{found-some}
use linkex.Repository.{Upstream}
use linkex.Parser.{Platform}
use linkex.Urls.{Url, ProfileRef, cache_key}
use linkex.Lookup.{
  ProfileResult, Service, Readings, entry_of, hit, from_memory, get_ref, get_profile, finish,
  fetch_once, repository_fetch,
}
use linkex.Lookup.Cached.{Holds, outcome_fetched, outcome_cached, outcome_of_read, valid}

module _ {C U : Type 0} (lru : Lru C (CachedProfile Profile)) (digest : String → String)
    (platform : Platform) (parse : String → Option Url) (upstream : Upstream U)
    (laws : IsLru lru) where
  from_memory-some :
      (ref : ProfileRef) (key : String) (r : Readings) (s : Service C U) (e : CachedProfile Profile)
      (found : ProfileCache C Profile × Option (CachedProfile Profile))
      → found.1 ≡ some e
      → from_memory lru digest platform parse upstream ref key r s found
        ≡ (record s { cache = found.0 }, ok (hit r e))
  from_memory-some ref key r s e (c, none) h = cc
  from_memory-some ref key r s e (c, some f) h =
      let same : f ≡ e = cc in ap (λ x. (record s { cache = c }, ok (hit r x))) same

  get_ref-fresh :
      (ref : ProfileRef) (r : Readings) (s : Service C U) (e : CachedProfile Profile)
      → Holds lru digest platform parse upstream laws (cache_key platform ref) e s
      → r.looked - e.inserted_at ≤ s.cache.ttl
      → get_ref lru digest platform parse upstream ref false r s ≡ (
        record s { cache = (get_memory lru digest r.looked (cache_key platform ref) s.cache).0 },
        ok (hit r e),
      )
  unfolding get_ref
  get_ref-fresh ref r s e h fresh =
      let key = cache_key platform ref in
      let young : ltb s.cache.ttl (r.looked - e.inserted_at) ≡ false = ground arith in
      from_memory-some ref key r s e (get_memory lru digest r.looked key s.cache)
        (rw young at (found-some lru digest r.looked key s.cache e h))

  -- After a lookup that fetched a profile, another of the same URL within the time to live, with no
  -- lookup between them, answers with that profile from the cache and makes no call of LinkedIn.
  pub get_profile-again :
      (url : String) (refresh : Bool) (r again : Readings) (s s' : Service C U)
      (res : ProfileResult)
      → get_profile lru digest platform parse upstream url refresh r s ≡ some (s', ok res)
      → res.cached ≡ false
      → again.looked - r.inserted ≤ s'.cache.ttl
      → (s'' : Service C U) × (res' : ProfileResult) × (get_profile lru digest platform parse
            upstream url false again s'
          ≡ some (s'', ok res'))
        × (res'.cached ≡ true)
        × (res'.profile ≡ res.profile)
        × (res'.upstream_calls ≡ 0)
        × (s''.client ≡ s'.client)
  unfolding get_profile
  get_profile-again url refresh r again s s' res h missed fresh =
      let (ref, is, made) =
        valid lru digest platform parse upstream laws url refresh r s s' res h in
      let key = cache_key platform ref in
      let f =
        outcome_fetched lru digest platform parse upstream laws res.cached key r res s s' missed (
          outcome_of_read lru digest platform parse upstream laws url refresh r s s' res ref
            made) in
      let e = entry_of f.profile r.inserted r.inserted_wall in
      (
        record s' { cache = (get_memory lru digest again.looked key s'.cache).0 },
        hit again e,
        rw is (ap some (get_ref-fresh ref again s' e f.kept fresh)),
        refl,
        sym f.shown,
        refl,
        refl,
      )

  -- An answer that is not from the cache.
  Missed : Service C U × Result ProfileResult → Type 0
  Missed (s, ok res) = res.cached ≡ false
  Missed (s, err e) = Unit

  finish-Missed :
      (key : String) (r : Readings) (s : Service C U) (t : Trace U × Result Profile)
      → Missed (finish lru digest platform parse upstream key r s t)
  unfolding Missed
  finish-Missed key r s (t, ok p) = refl
  finish-Missed key r s (t, err e) = tt

  fetch_once-Missed :
      (ref : ProfileRef) (key : String) (r : Readings) (s : Service C U)
      → Missed (fetch_once lru digest platform parse upstream ref key r s)
  unfolding fetch_once
  fetch_once-Missed ref key r s =
      finish-Missed key r s (repository_fetch lru digest platform parse upstream ref r s.client)

  get_ref-refreshed :
      (ref : ProfileRef) (r : Readings) (s : Service C U)
      → Missed (get_ref lru digest platform parse upstream ref true r s)
  unfolding get_ref
  get_ref-refreshed ref r s =
      let key = cache_key platform ref in
      fetch_once-Missed ref key r (record s { cache = invalidate lru digest key s.cache })

  refreshed-cached :
      (ref : ProfileRef) (refresh : Bool) (r : Readings) (s s' : Service C U) (res : ProfileResult)
      → get_ref lru digest platform parse upstream ref refresh r s ≡ (s', ok res)
      → res.cached ≡ true
      → refresh ≡ false
  unfolding Missed
  refreshed-cached ref false r s s' res h found = refl
  refreshed-cached ref true r s s' res h found =
      let missed : res.cached ≡ false = subst Missed h (get_ref-refreshed ref r s) in cc

  -- A lookup that is answered from the cache was not told to refresh, and made no call of LinkedIn.
  pub get_profile-hit :
      (url : String) (refresh : Bool) (r : Readings) (s s' : Service C U) (res : ProfileResult)
      → get_profile lru digest platform parse upstream url refresh r s ≡ some (s', ok res)
      → res.cached ≡ true
      → (refresh ≡ false) × (s'.client ≡ s.client) × (res.upstream_calls ≡ 0)
  get_profile-hit url refresh r s s' res h found =
      let (ref, is, made) =
        valid lru digest platform parse upstream laws url refresh r s s' res h in
      let f =
        outcome_cached lru digest platform parse upstream laws res.cached (cache_key platform ref) r
          res s s' found
          (outcome_of_read lru digest platform parse upstream laws url refresh r s s' res ref
            made) in
      (refreshed-cached ref refresh r s s' res made found, f.untouched, f.free)
