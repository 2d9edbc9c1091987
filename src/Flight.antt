-- ===== src/Flight.antt =====
-- src/service/profile.rs, `fetch_once`: concurrent lookups of one profile share one upstream fetch.
-- Callers and the tasks that fetch interleave in any order; each step between two waits is an
-- event. A flight is named by a number, which the source has no need of: its channel stands for it.
pub mod Single
pub mod Late
pub mod Settled
pub mod Dropped
mod Examples
use linkex.Shared.{
  ℕ, ◌+◌, ◌-◌, String, ◌≡◌, refl, ap, Bool, true, false, Option, none, some, List, [], ◌∷◌, arith,
  nat_eq, string_eq, if◌then◌else◌, get, insert, remove,
}
use linkex.Error.{AppError, internal, clone_error, clone_error-same, Result, ok, err}

-- The state of the channel: `Pending`, `Done`, or without its sender, as the task panicked.
pub data FlightState (P : Type 0) : Type 0 where
  pending dropped : FlightState P
  landed : Result P → FlightState P

pub record Flight (P : Type 0) : Type 0 where
  pub key : String
  pub state : FlightState P

pub record Flights (P : Type 0) : Type 0 where
  -- the map from keys to the flights that later callers join
  pub inflight : List (String × ℕ)
  pub flights : List (ℕ × Flight P)
  -- the number of the next flight, and so the number of upstream fetches so far
  pub next : ℕ

pub data Event (P : Type 0) : Type 0 where
  -- a caller looks for the key, and joins a flight or starts one
  join : String → Event P
  -- the fetch of a flight ends, with what it sends, or in a panic
  land : ℕ → Result P → Event P
  drop : ℕ → Event P
  -- the task of a flight that has landed, or one of its callers, removes the key from the map
  leave : ℕ → Event P

module _ {P : Type 0} where
  abbrev pub set_state : ℕ → FlightState P → Flights P → Option (Flight P) → Flights P
  set_state i state s none = s
  set_state i state s (some f) = record s {
    flights = insert i (record { key = f.key; state = state }) s.flights;
  }

  unfoldable pub joined : String → Flights P → Option ℕ → Flights P
  joined key s (some i) = s
  joined key s none = record {
    inflight = insert key s.next s.inflight;
    flights = insert s.next (record { key = key; state = pending }) s.flights;
    next = s.next + 1;
  }

  abbrev pub is_landed : FlightState P → Bool
  is_landed pending = false
  is_landed dropped = false
  is_landed (landed _) = true

  abbrev pub is_pending : FlightState P → Bool
  is_pending pending = true
  is_pending _ = false

  unfoldable pub ended : ℕ → FlightState P → Flights P → Option (Flight P) → Flights P
  ended i state s none = s
  ended i state s (some f) = if is_pending f.state then set_state i state s (some f) else s

  unfoldable pub left : Flights P → Option (Flight P) → Flights P
  left s none = s
  left s (some f) = if is_landed f.state then record s { inflight = remove f.key s.inflight } else s

  unfoldable pub step : Event P → Flights P → Flights P
  step (join key) s = joined key s (get key s.inflight)
  step (land i result) s = ended i (landed result) s (get i s.flights)
  step (drop i) s = ended i dropped s (get i s.flights)
  step (leave i) s = left s (get i s.flights)

  unfoldable pub run : List (Event P) → Flights P → Flights P
  run [] s = s
  run (e ∷ events) s = run events (step e s)

  unfoldable pub cloned : Result P → Result P
  cloned (ok profile) = ok profile
  cloned (err e) = err (clone_error e)

  pub cloned-same : (result : Result P) → cloned result ≡ result
  unfolding cloned
  cloned-same (ok profile) = refl
  cloned-same (err e) = ap err (clone_error-same e)

  -- What a caller that waits on a flight gets: nothing yet, or its result.
  unfoldable pub received : Option (Flight P) → Option (Result P)
  received none = none
  received (some f) = elim f.state [
    | pending ↦ none
    | dropped ↦ some (err (internal "in-flight fetch dropped"))
    | landed result ↦ some (cloned result)
  ]

  unfoldable pub poll : ℕ → Flights P → Option (Result P)
  unfolding received
  poll i s = received (get i s.flights)
