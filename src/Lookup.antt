-- ===== src/Lookup.antt =====
-- src/service/profile.rs, `get_profile`, and src/api/profile.rs: a lookup of a profile, from its URL
-- to the answer, with the cache, the disk copy and the repository. The lookup is the only one of its
-- key: how lookups of one key share a fetch is in Flight. What the clocks say on the way is given.
pub mod Cached
pub mod Raw
mod Examples
use linkex.Shared.{
  ℕ, ◌+◌, ◌*◌, ◌/◌, String, Bool, true, false, not, Option, none, some, List, [], ◌∷◌, ◌++◌, map,
  length, if◌then◌else◌,
}
use linkex.Shared.Int.{ℤ}
use linkex.Shared.Options.{map_option}
use linkex.Json
use linkex.Json.{Value, Fields}
use linkex.Error.{AppError, Result, ok, err, clone_error, endpoint_disabled, error_code}
use linkex.Domain.{Profile, SourceCall}
use linkex.Draft.{ProfileDraft}
use linkex.Cache.{
  CachedProfile, ProfileCache, age_seconds, get_memory, load_disk, insert_memory, save_disk,
  invalidate,
}
use linkex.Cache.Crate.{Lru}
use linkex.Client.{VoyagerCall, VoyagerResponse}
use linkex.Endpoints.{
  profile_view, profile_core, profile_contact_info, profile_skills, profile_network_info,
}
use linkex.Parser.{Platform}
use linkex.Parser.Assembler
use linkex.Parser.Assembler.{build_profile, draft_from_dash, draft_from_legacy}
use linkex.Repository
use linkex.Repository.{Upstream, Trace, payload_value}
use linkex.Urls.{Url, ProfileRef, as_str, cache_key, parse_profile_url}

pub record ProfileResult : Type 0 where
  pub profile : Profile
  pub cached : Bool
  -- in tenths of a second
  pub cache_age : Option ℕ
  pub elapsed_ms : ℕ
  pub upstream_calls : ℕ

-- The client, and the cache that the service owns.
pub record Service (C U : Type 0) : Type 0 where
  pub cache : ProfileCache C Profile
  pub client : U

-- What a lookup reads from the clocks: when it looks, when the fetch begins, and when the profile is
-- put into memory and onto the disk; whether the disk takes it; and how long all took.
pub record Readings : Type 0 where
  pub looked : ℕ
  pub looked_wall : ℕ
  pub fetched_at : ℤ
  pub year_month : ℤ × ℤ
  pub inserted : ℕ
  pub inserted_wall : ℕ
  pub saved : ℕ
  pub saved_wall : ℕ
  pub written : Bool
  pub elapsed_ms : ℕ

abbrev pub entry_of : Profile → ℕ → ℕ → CachedProfile Profile
entry_of profile now wall = record { profile = profile; inserted_at = now; stored_at = wall }

-- `(age * 10.0).round()`, of nanoseconds
abbrev pub tenths : ℕ → ℕ
tenths age = (age + 50_000_000) / 100_000_000

-- the payloads by name, as an object
abbrev as_fields : List (String × Value) → Fields
as_fields [] = Json.end
as_fields ((name, v) ∷ payloads) = Json.put name v (as_fields payloads)

abbrev pub hit : Readings → CachedProfile Profile → ProfileResult
hit r e = record {
  profile = e.profile;
  cached = true;
  cache_age = some (tenths (age_seconds r.looked r.looked_wall e));
  elapsed_ms = r.elapsed_ms;
  upstream_calls = 0;
}

abbrev pub miss : Readings → Profile → ProfileResult
miss r profile = record {
  profile = profile;
  cached = false;
  cache_age = none;
  elapsed_ms = r.elapsed_ms;
  upstream_calls = length profile.meta.sources;
}

module _ {C U : Type 0} (lru : Lru C (CachedProfile Profile)) (digest : String → String)
    (platform : Platform) (parse : String → Option Url) (upstream : Upstream U) where
  -- `ProfileRepository::fetch`, with the parsers and the assembler that it calls
  unfoldable pub repository_fetch : ProfileRef → Readings → U → Trace U × Result Profile
  repository_fetch ref r u =
      Repository.fetch upstream
        (λ m. draft_from_legacy platform (some (Json.object m)) none r.year_month)
        (λ m name. draft_from_dash platform (some (Json.object m)) name r.year_month)
        (λ d. d.identity.profile_id)
        (λ d payloads sources warnings.
          build_profile ref.identifier (as_str ref.kind) ref.canonical_url
            (Assembler.enrich platform (as_fields payloads) d) sources warnings r.fetched_at)
        ref.identifier u

  -- The task of a fetch keeps a profile in memory and on the disk, and passes on an error.
  unfoldable pub keep : String → Readings → Result Profile → Service C U → Service C U
  keep key r (err e) s = s
  keep key r (ok profile) s = record s {
    cache =
        save_disk lru digest r.written key (entry_of profile r.saved r.saved_wall)
          (insert_memory lru digest key (entry_of profile r.inserted r.inserted_wall) s.cache);
  }

  abbrev pub result_of : Readings → Result Profile → Result ProfileResult
  result_of r (ok profile) = ok (miss r profile)
  result_of r (err e) = err (clone_error e)

  abbrev pub finish :
      String
      → Readings
      → Service C U
      → Trace U × Result Profile
      → Service C U × Result ProfileResult
  finish key r s (t, outcome) =
      (keep key r outcome (record s { client = t.client }), result_of r outcome)

  unfoldable pub fetch_once :
      ProfileRef → String → Readings → Service C U → Service C U × Result ProfileResult
  fetch_once ref key r s = finish key r s (repository_fetch ref r s.client)

  abbrev from_disk :
      ProfileRef
      → String
      → Readings
      → Service C U
      → ProfileCache C Profile × Option (CachedProfile Profile)
      → Service C U × Result ProfileResult
  from_disk ref key r s (c, some e) =
      (record s { cache = insert_memory lru digest key e c }, ok (hit r e))
  from_disk ref key r s (c, none) = fetch_once ref key r (record s { cache = c })

  abbrev pub from_memory :
      ProfileRef
      → String
      → Readings
      → Service C U
      → ProfileCache C Profile × Option (CachedProfile Profile)
      → Service C U × Result ProfileResult
  from_memory ref key r s (c, some e) = (record s { cache = c }, ok (hit r e))
  from_memory ref key r s (c, none) =
      from_disk ref key r (record s { cache = c })
        (load_disk lru digest r.looked r.looked_wall key c)

  -- A lookup of a URL that is valid.
  unfoldable pub get_ref :
      ProfileRef → Bool → Readings → Service C U → Service C U × Result ProfileResult
  get_ref ref refresh r s =
      let key = cache_key platform ref in
      if refresh
      then fetch_once ref key r (record s { cache = invalidate lru digest key s.cache })
      else from_memory ref key r s (get_memory lru digest r.looked key s.cache)

  abbrev pub get_parsed :
      Bool → Readings → Service C U → Result ProfileRef → Service C U × Result ProfileResult
  get_parsed refresh r s (err e) = (s, err e)
  get_parsed refresh r s (ok ref) = get_ref ref refresh r s

  -- `none` where the reading of the URL panics
  unfoldable pub get_profile :
      String → Bool → Readings → Service C U → Option (Service C U × Result ProfileResult)
  get_profile url refresh r s =
      map_option (get_parsed refresh r s) (parse_profile_url platform parse url)

pub record ResponseMeta : Type 0 where
  pub request_id : String
  pub cached : Bool
  pub cache_age : Option ℕ
  pub elapsed_ms : ℕ
  pub upstream_calls : ℕ

pub record ProfileResponse : Type 0 where
  pub success : Bool
  pub meta : ResponseMeta
  pub profile : Profile

-- the headers and the body of an answer
pub record Reply : Type 0 where
  pub x_cache : String
  pub cache_control : String
  pub body : ProfileResponse

-- `lookup` of the handlers, after the service
unfoldable pub reply_of : String → ProfileResult → Reply
reply_of request_id result = record {
  x_cache = if result.cached then "HIT" else "MISS";
  cache_control = "private, no-store";
  body = record {
    success = true;
    meta = record {
      request_id = request_id;
      cached = result.cached;
      cache_age = result.cache_age;
      elapsed_ms = result.elapsed_ms;
      upstream_calls = result.upstream_calls;
    };
    profile = result.profile;
  };
}
