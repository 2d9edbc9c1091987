-- ===== src/Flight/Examples.antt =====
-- Interleavings of callers and fetches, and the theorems at them.
use linkex.Shared.{
  ℕ, String, ◌≡◌, refl, some, List, [], ◌∷◌, arith, nat_eq, string_eq, get, insert, remove,
}
use linkex.Error.{ok, err, internal}
use linkex.Flight.{
  FlightState, pending, dropped, landed, Flight, Flights, Event, join, land, drop, leave,
  is_pending, poll, step, run,
}
use linkex.Flight.Single.{empty, orderly, run-single}
use linkex.Flight.Settled.{poll-landed}
use linkex.Flight.Dropped.{IsStuck, dropped-stuck}

abbrev coalesced : List (Event String)
coalesced =
    join "ada" ∷ join "ada" ∷ join "bob" ∷ land 0 (ok "Ada") ∷ leave 0 ∷ leave 0 ∷ join "ada" ∷ []

coalesced_example :
    ((run coalesced empty).next ≡ 3) × (poll 0 (run coalesced empty) ≡ some (ok "Ada"))
unfolding run step poll get linkex.Flight.joined linkex.Flight.left linkex.Flight.ended insert
    remove linkex.Flight.cloned
coalesced_example = (refl, refl)

abbrev flight_2 : Flight String
flight_2 = record { key = "ada"; state = pending }

run-single_example : ◌≡◌ {A = ℕ} 2 2
unfolding run step get orderly linkex.Flight.Single.orderly_step linkex.Flight.Single.leaves_own
    linkex.Flight.ended linkex.Flight.joined insert linkex.Flight.left remove
run-single_example = run-single coalesced 2 2 flight_2 flight_2 refl refl refl refl refl refl

abbrev late : Flights String
late = record {
  inflight = ("ada", 1) ∷ [];
  flights =
      (0, record { key = "ada"; state = landed (ok "Ada") })
      ∷ (1, record { key = "ada"; state = pending })
      ∷ [];
  next = 2;
}

late_reachable :
    run (join "ada" ∷ join "ada" ∷ land 0 (ok "Ada") ∷ leave 0 ∷ join "ada" ∷ []) empty ≡ late
unfolding run step get linkex.Flight.joined linkex.Flight.left linkex.Flight.ended insert remove
late_reachable = refl

abbrev broken : Flights String
broken = run (join "ada" ∷ drop 0 ∷ []) empty

broken-IsStuck : IsStuck 0 (record { key = "ada"; state = dropped }) refl broken
unfolding run step get linkex.Flight.ended linkex.Flight.joined insert
broken-IsStuck = record { flight = refl; entry = refl; known = omega arith }

dropped-stuck_example :
    (get "ada" (run (join "bob" ∷ join "ada" ∷ []) broken).inflight ≡ some 0)
    × (poll 0 (run (join "bob" ∷ join "ada" ∷ []) broken)
        ≡ some (err (internal "in-flight fetch dropped")))
unfolding orderly linkex.Flight.Single.orderly_step
dropped-stuck_example =
    dropped-stuck 0 (record { key = "ada"; state = dropped }) refl (join "bob" ∷ join "ada" ∷ [])
      broken refl broken-IsStuck

abbrev landed_once : Flights String
landed_once = run (join "ada" ∷ join "bob" ∷ land 0 (ok "Ada") ∷ []) empty

poll-landed_example :
    poll 0 (run (leave 0 ∷ join "ada" ∷ land 2 (ok "Ada II") ∷ []) landed_once) ≡ some (ok "Ada")
unfolding run step get linkex.Flight.ended linkex.Flight.joined insert
poll-landed_example =
    poll-landed (leave 0 ∷ join "ada" ∷ land 2 (ok "Ada II") ∷ []) landed_once 0 "ada" (ok "Ada")
      refl (omega arith)
