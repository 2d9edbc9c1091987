-- ===== src/Client/Examples.antt =====
-- Calls of `fetch` with scripted answers, and its theorems at them.
use linkex.Shared.{
  ℕ, ◌-◌, ◌/◌, ◌≤◌, ◌≡◌, refl, true, false, none, some, [], ◌∷◌, ◌==◌, nat_eq, string_eq,
  if◌then◌else◌, get,
}
use linkex.Json.{field, string, end}
use linkex.Error.{ok}
use linkex.Session.{LinkedInSession, is_usable, environment, csrf_token, is_tombstone}
use linkex.Breaker.{CircuitBreaker, closed, opened, check}
use linkex.Client.{
  VoyagerCall, VoyagerResponse, Attempt, Client, World, fetch, token_of, session_for, is_required,
  is_ok, is_throttled, is_retryable, is_redirect, returned, after_send, answered, rejected,
  redirected, missing, other, renewal, dispatch, loop, finish, resume,
}
use linkex.Client.Attempts.{repeated, fetch-sent}
use linkex.Client.Contract.{Delivered, fetch-required}

abbrev profile_call : VoyagerCall
profile_call = record {
  name = "profile";
  path = "/identity/dash/profiles";
  params = ("q", "memberIdentity") ∷ [];
  required = true;
  normalized = true;
}

abbrev live : LinkedInSession
live = record {
  cookies = ("li_at", "AQ") ∷ ("JSESSIONID", "\"ajax:1\"") ∷ [];
  source = environment;
  created_at = 0;
  last_validated_at = none;
  member_urn = none;
}

abbrev renewed_session : LinkedInSession
renewed_session = record live { cookies = ("li_at", "AR") ∷ ("JSESSIONID", "\"ajax:2\"") ∷ [] }

abbrev attempt_with : ℕ → Attempt
attempt_with status = record {
  status = status;
  payload = some (field "id" (string "1") end);
  elapsed_ms = 7;
  jar = live.cookies;
  reauthentication = ok renewed_session;
  time = 10;
}

abbrev world_of : (ℕ → ℕ) → World
world_of statuses = record {
  now = 100;
  later = 100;
  authentication = ok renewed_session;
  script = λ n. attempt_with (statuses n);
  end_time = 20;
}

abbrev fresh : CircuitBreaker
fresh = record { threshold = 5; cooldown = 60; inner = closed 0 }

abbrev client : Client
client = record { breaker = fresh; session = some live; sent = [] }

abbrev expired_once : ℕ → ℕ
expired_once n = if n == 1 then 401 else 200

session_for-live : session_for (some live) (ok renewed_session) ≡ ok live
unfolding session_for is_usable get is_tombstone
session_for-live = refl

renewed_then_answered :
    (fetch 3 profile_call false (world_of expired_once) client).0.sent ≡ "ajax:1" ∷ "ajax:1" ∷ []
unfolding fetch loop resume dispatch answered rejected renewal after_send check session_for
    is_usable csrf_token is_redirect linkex.Client.ensure_session get is_tombstone
renewed_then_answered = refl

fetch-sent_example :
    (k : ℕ) × (k ≤ 3)
    × ((fetch 3 profile_call false (world_of expired_once) client).0.sent ≡ repeated k "ajax:1" [])
unfolding csrf_token get linkex.Shared.Text.trim_matches
fetch-sent_example =
    fetch-sent 3 profile_call false (world_of expired_once) client live session_for-live

abbrev delivered : VoyagerResponse
delivered = record {
  name = "profile";
  status_code = 200;
  payload = some (field "id" (string "1") end);
  elapsed_ms = 7;
  attempts = 2;
}

fetch-required_example :
    Delivered (fetch 3 profile_call false (world_of expired_once) client).0 delivered
unfolding fetch loop resume dispatch answered rejected renewal after_send check session_for
    is_usable csrf_token is_redirect linkex.Client.ensure_session get is_tombstone
fetch-required_example =
    fetch-required 3 profile_call false (world_of expired_once) client delivered refl refl

abbrev tripped : Client
tripped = record client { breaker = record fresh { inner = opened 40 } }

abbrev after_missing : Client
after_missing = (fetch 3 profile_call false (world_of (λ n. 404)) tripped).0

abbrev later_call : World
later_call = record (world_of (λ n. 200)) { now = 900_000_000_000; later = 900_000_000_000 }

abbrev signing_out : World
signing_out = record (world_of (λ n. 302)) {
  script = λ n. record (attempt_with 302) { jar = ("li_at", "delete me") ∷ [] };
}
