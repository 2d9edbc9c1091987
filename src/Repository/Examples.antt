-- ===== src/Repository/Examples.antt =====
-- Lookups over scripted upstreams, and the theorems at them.
use linkex.Shared.{
  ℕ, suc, ◌+◌, ◌-◌, ◌≤◌, String, ◌≡◌, refl, ap, not, Option, none, some, List, [], ◌∷◌, arith,
  nat_eq, string_eq, length, get,
}
use linkex.Json.{Fields, Value, field, string, end}
use linkex.Error.{AppError, ok, err}
use linkex.Client.{VoyagerCall, VoyagerResponse}
use linkex.Client.Fallback.{unanswered}
use linkex.Endpoints.{dash_profile, dash_profile_minimal}
use linkex.Domain.{SourceCall}
use linkex.Repository.{
  Upstream, Trace, record_response, is_definitive, failed_source, add_source, warning_for, hint_for,
  fetch_chain, fetch_profile, fetch, draft_of,
}
use linkex.Repository.Chain.{fetch_chain-draft}
use linkex.Repository.Accounting.{fetch-accounted}
use linkex.Repository.Enrichment.{fetch-optional}

-- Upstreams that count their calls.
abbrev silent : Upstream ℕ
silent = record { fetch = λ call fallback u. (suc u, ok (unanswered call 3)) }

abbrev answer_of : VoyagerCall → VoyagerResponse
answer_of call = record (unanswered call 1) {
  status_code = 200;
  payload = some (field "name" (string "Ada") end);
}

abbrev answering : Upstream ℕ
answering = record { fetch = λ call fallback u. (suc u, ok (answer_of call)) }

abbrev failing : AppError → Upstream ℕ
failing e = record { fetch = λ call fallback u. (suc u, err e) }

abbrev no_legacy : Fields → Option String
no_legacy m = none

abbrev by_name : Fields → String → Option String
by_name m name = some name

abbrev an_id : String → Option String
an_id d = some "ACoAx"

abbrev assembled : String → List (String × Value) → List SourceCall → List String → String
assembled d payloads sources warnings = d

abbrev start : Trace ℕ
start = record { client = 0; payloads = []; sources = []; warnings = [] }

first_draft :
    fetch_chain answering no_legacy by_name
      (dash_profile "ada" ∷ dash_profile_minimal "ada" ∷ [])
      none
      start
    ≡ (
      record_response (answer_of (dash_profile "ada")) (record start { client = 1 }),
      ok (some "dashProfile"),
    )
unfolding draft_of dash_profile
first_draft =
    fetch_chain-draft answering no_legacy by_name (dash_profile "ada")
      (dash_profile_minimal "ada" ∷ []) none start 1 (answer_of (dash_profile "ada"))
      (field "name" (string "Ada") end) "dashProfile" refl refl refl refl

abbrev found : Trace ℕ
found = record_response (answer_of (dash_profile "ada")) (record start { client = 1 })

fetch-accounted_example :
    ((fetch answering no_legacy by_name an_id assembled "ada" 0).0.client
      ≡ 0 + length (fetch answering no_legacy by_name an_id assembled "ada" 0).0.sources)
    × ((fetch answering no_legacy by_name an_id assembled "ada" 0).0.client ≤ 0 + 3)
unfolding fetch_profile linkex.Repository.strategies
fetch-accounted_example =
    fetch-accounted answering no_legacy by_name (λ u. u) (λ call fallback u. omega arith) an_id
      assembled "ada" 0 "dashProfile"
      (ap (λ x. x.1)
        (fetch-optional answering no_legacy by_name an_id assembled "ada" 0 found "dashProfile"
          first_draft).1)

warning_example :
    warning_for "dashProfile" (some 502) none
    ≡ "Call 'dashProfile' unavailable (HTTP 502): the decorated profile collection did not answer"
unfolding warning_for hint_for get linkex.Shared.Text.decimal linkex.Shared.Text.char_or
warning_example = refl
