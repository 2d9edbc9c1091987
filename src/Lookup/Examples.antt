-- ===== src/Lookup/Examples.antt =====
-- The theorems on lookups, over an upstream that answers with a member.
use linkex.Shared.{
  ℕ, zero, suc, ◌-◌, ◌≤◌, String, ◌≡◌, refl, is_some, ap, ◌∙◌, Bool, true, false, Option, none,
  some, List, [], ◌∷◌, ◌==◌, string_eq, nat_eq, arith, get,
}
use linkex.Shared.Int.{pos}
use linkex.Shared.Options.{map_option}
use linkex.Json
use linkex.Json.{Value, Fields, lookup}
use linkex.Error.{Result, ok, err, endpoint_disabled}
use linkex.Domain.{Profile}
use linkex.Cache.{CachedProfile, ProfileCache}
use linkex.Cache.Samples.{Store, lru_2, lru_2-IsLru, plain_digest}
use linkex.Client.{VoyagerCall, VoyagerResponse}
use linkex.Client.Fallback.{unanswered}
use linkex.Parser.Samples.{ascii, now, ada}
use linkex.Repository.{Upstream}
use linkex.Urls.{Url, ProfileRef, IdentifierKind, vanity, parse_profile_url}
use linkex.Urls.Identifiers.{parse_profile_url-plain}
use linkex.Parser.Assembler.{build_profile}
use linkex.Draft.{ProfileDraft, Identity, Sections}
use linkex.Lookup.{
  Service, Readings, ProfileResult, get_profile, get_ref, get_parsed, entry_of, hit, miss,
}
use linkex.Lookup.Raw.{get_profile_raw, body_of, get_profile_raw-named}
use linkex.Lookup.Cached.Again.{get_profile-again, get_profile-hit}

abbrev a_person : Fields
a_person =
    Json.field "firstName" (Json.string "Ada")
      (Json.field "lastName" (Json.string "Lovelace") Json.end)

abbrev answer_of : VoyagerCall → VoyagerResponse
answer_of call = record (unanswered call 1) { status_code = 200; payload = some a_person }

-- It counts its calls.
abbrev answering : Upstream ℕ
answering = record { fetch = λ call fallback u. (suc u, ok (answer_of call)) }

abbrev parse : String → Option Url
parse s = none

abbrev at : ℕ → Readings
at n = record {
  looked = n;
  looked_wall = n;
  fetched_at = pos n;
  year_month = now;
  inserted = n;
  inserted_wall = n;
  saved = n;
  saved_wall = n;
  written = true;
  elapsed_ms = 5;
}

abbrev fresh : Service (Store Profile) ℕ
fresh = record {
  cache = record {
    ttl = 100;
    directory = some "d";
    entries = [];
    files = [];
    hits = 0;
    misses = 0;
  };
  client = 0;
}

abbrev ref : ProfileRef
ref = record {
  identifier = "ada-l";
  kind = vanity;
  canonical_url = "https://www.linkedin.com/in/ada-l/";
  raw_input = "ada-l";
}

link_read : parse_profile_url ascii parse "ada-l" ≡ some (ok ref)
unfolding linkex.Shared.Text.all_chars linkex.Shared.Text.char_count linkex.Urls.has_text
    linkex.Shared.Text.strip_prefix linkex.Urls.is_obfuscated
link_read = parse_profile_url-plain ascii "ada-l" refl refl refl parse refl

abbrev served : Result ProfileResult → ProfileResult → ProfileResult
served (ok r) other = r
served (err e) other = other

abbrev first_lookup : Service (Store Profile) ℕ × Result ProfileResult
first_lookup = get_ref lru_2 plain_digest ascii parse answering ref false (at 10) fresh

abbrev first_result : ProfileResult
first_result = served first_lookup.1 (miss (at 0) (build_profile "" "" "" ada [] [] (pos 0)))

fetched :
    (first_lookup.1 ≡ ok first_result)
    × (first_result.cached ≡ false)
    × (first_lookup.0.cache.ttl ≡ 100)
    × (first_lookup.0.client ≡ 1)
unfolding get_ref linkex.Cache.get_memory get linkex.Cache.load_disk linkex.Cache.load
    linkex.Cache.path_for linkex.Cache.read linkex.Lookup.fetch_once linkex.Lookup.repository_fetch
    linkex.Repository.fetch linkex.Repository.finished linkex.Repository.fetch_profile
    linkex.Repository.fetch_chain linkex.Repository.strategies linkex.Repository.tried
    linkex.Repository.answered linkex.Client.is_ok linkex.Repository.parsed
    linkex.Repository.drafted linkex.Repository.draft_of linkex.Endpoints.dash_profile
    linkex.Parser.Assembler.draft_from_dash linkex.Parser.Dash.Document.parse_dash_profile
    linkex.Parser.Dash.extract Json.lookup linkex.Parser.Dash.embedded_root
    linkex.Parser.Dash.looks_like_member linkex.Endpoints.dash_profile_minimal
    linkex.Draft.is_populated linkex.Parser.Dash.Identity.identity linkex.Parser.Legacy.joining
    linkex.Parser.Texts.text_of linkex.Parser.Texts.text linkex.Parser.Texts.tidy
    linkex.Shared.Text.trim linkex.Parser.Texts.collapse linkex.Parser.Texts.crlf linkex.Lookup.keep
    linkex.Cache.save_disk linkex.Cache.save linkex.Cache.insert_memory linkex.Repository.enrich
    linkex.Repository.record_response
fetched = (refl, refl, refl, refl)

-- A lookup of the link is one of its reference.
get_profile-ref :
    (r : Readings) (s : Service (Store Profile) ℕ)
    → get_profile lru_2 plain_digest ascii parse answering "ada-l" false r s
      ≡ some (get_ref lru_2 plain_digest ascii parse answering ref false r s)
unfolding get_profile
get_profile-ref r s =
    ap (map_option (get_parsed lru_2 plain_digest ascii parse answering false r s)) link_read

first_read :
    get_profile lru_2 plain_digest ascii parse answering "ada-l" false (at 10) fresh
    ≡ some (first_lookup.0, ok first_result)
first_read = get_profile-ref (at 10) fresh ∙ ap (λ r. some (first_lookup.0, r)) fetched.0

get_profile-again_example :
    (s'' : Service (Store Profile) ℕ) × (res' : ProfileResult) × (get_profile lru_2 plain_digest
        ascii parse answering "ada-l" false
        (at 90)
        first_lookup.0
      ≡ some (s'', ok res'))
    × (res'.cached ≡ true)
    × (res'.profile ≡ first_result.profile)
    × (res'.upstream_calls ≡ 0)
    × (s''.client ≡ first_lookup.0.client)
get_profile-again_example =
    get_profile-again lru_2 plain_digest ascii parse answering lru_2-IsLru "ada-l" false (at 10)
      (at 90) fresh first_lookup.0 first_result first_read fetched.1 (rw (fetched.2) (omega arith))

abbrev in_cache : CachedProfile Profile
in_cache = entry_of (build_profile "" "" "" ada [] [] (pos 0)) 20 20

abbrev warm : Service (Store Profile) ℕ
warm = record fresh { cache = record fresh.cache { entries = ("profile:ada-l", in_cache) ∷ [] } }

abbrev warm_after : Service (Store Profile) ℕ
warm_after = (get_ref lru_2 plain_digest ascii parse answering ref false (at 90) warm).0

hit-ref :
    get_ref lru_2 plain_digest ascii parse answering ref false (at 90) warm
    ≡ (warm_after, ok (hit (at 90) in_cache))
unfolding get_ref linkex.Cache.get_memory get linkex.Urls.cache_key
hit-ref = refl

get_profile-hit_example :
    (false ≡ false) × (warm_after.client ≡ 0) × ((hit (at 90) in_cache).upstream_calls ≡ 0)
get_profile-hit_example =
    get_profile-hit lru_2 plain_digest ascii parse answering lru_2-IsLru "ada-l" false (at 90) warm
      warm_after (hit (at 90) in_cache) (get_profile-ref (at 90) warm ∙ ap (λ x. some x) hit-ref)
      refl

get_profile_raw-named_example :
    (get_profile_raw ascii parse answering false "ada-l" 0 ≡ some (0, err endpoint_disabled))
    × ((v : ℕ) × (calls : Fields) × (get_profile_raw ascii parse answering true "ada-l" 0
          ≡ some (v, ok (body_of ref calls)))
        × (is_some (lookup "skills" calls) ≡ true))
get_profile_raw-named_example =
    get_profile_raw-named ascii parse answering "ada-l" 0 ref "skills" link_read
