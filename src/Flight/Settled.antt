-- ===== src/Flight/Settled.antt =====
-- What the callers of a flight get.
use linkex.Shared.{
  ℕ, ◌<◌, String, ◌≡◌, refl, sym, ap, ◌∙◌, inl, inr, false, Option, none, some, List, [], ◌∷◌,
  arith, ◌==◌, nat_eq, string_eq, Bool-cases, get, get-insert,
}
use linkex.Error.{Result}
use linkex.Flight.{
  FlightState, pending, dropped, landed, Flight, Flights, Event, join, land, drop, leave, is_landed,
  is_pending, joined, ended, left, received, poll, step, run, cloned-same,
}

module _ {P : Type 0} (i : ℕ) (f : Flight P) (over : is_pending f.state ≡ false) where
  pub record IsSettled (s : Flights P) : Type 0 where
    pub flight : get i s.flights ≡ some f
    pub known : i < s.next

  joined-IsSettled :
      (key : String) (s : Flights P) (o : Option ℕ) → IsSettled s → IsSettled (joined key s o)
  unfolding joined
  joined-IsSettled key s (some j) h = h
  joined-IsSettled key s none h =
      let apart : (s.next == i) ≡ false = ground (arith, h.known) in
      record {
        flight =
            get-insert s.next i (record { key = key; state = pending }) s.flights
            ∙ rw apart h.flight;
        known = omega (arith, h.known);
      }

  ended-IsSettled :
      (j : ℕ) (state : FlightState P) (s : Flights P) (o : Option (Flight P))
      → get j s.flights ≡ o
      → IsSettled s
      → IsSettled (ended j state s o)
  unfolding ended
  ended-IsSettled j state s none e h = h
  ended-IsSettled j state s (some g) e h = elim (Bool-cases (is_pending g.state)) [
    | inl p ↦
        let apart : (j == i) ≡ false = elim (Bool-cases (j == i)) [
          | inl q ↦
              let same : some g ≡ some f =
                sym e ∙ ap (λ k. get k s.flights) ((nat_eq.same_iff j i).0 q) ∙ h.flight in
              let same_flight : g ≡ f = cc in
              cc (rw (ap (λ x. is_pending x.state) same_flight ∙ over) at p)
          | inr q ↦ q
        ] in
        rw p (record {
          flight =
              get-insert j i (record { key = g.key; state = state }) s.flights ∙ rw apart h.flight;
          known = h.known;
        })
    | inr p ↦ rw p h
  ]

  left-IsSettled : (s : Flights P) (o : Option (Flight P)) → IsSettled s → IsSettled (left s o)
  unfolding left
  left-IsSettled s none h = h
  left-IsSettled s (some g) h = elim (Bool-cases (is_landed g.state)) [
    | inl p ↦ rw p (record { flight = h.flight; known = h.known })
    | inr p ↦ rw p h
  ]

  pub step-IsSettled : (e : Event P) (s : Flights P) → IsSettled s → IsSettled (step e s)
  unfolding step
  step-IsSettled (join key) s h = joined-IsSettled key s (get key s.inflight) h
  step-IsSettled (land j result) s h = ended-IsSettled j (landed result) s (get j s.flights) refl h
  step-IsSettled (drop j) s h = ended-IsSettled j dropped s (get j s.flights) refl h
  step-IsSettled (leave j) s h = left-IsSettled s (get j s.flights) h

  pub run-IsSettled :
      (events : List (Event P)) (s : Flights P) → IsSettled s → IsSettled (run events s)
  unfolding run
  run-IsSettled [] s h = h
  run-IsSettled (e ∷ events) s h = run-IsSettled events (step e s) (step-IsSettled e s h)

-- Whatever happens after a flight has landed, each of its callers gets the result of its fetch.
pub poll-landed :
    {P : Type 0} (events : List (Event P)) (s : Flights P) (i : ℕ) (key : String)
    (result : Result P)
    → get i s.flights ≡ some (record { key = key; state = landed result })
    → i < s.next
    → poll i (run events s) ≡ some result
unfolding poll received
poll-landed events s i key result h known =
    let settled =
      run-IsSettled i (record { key = key; state = landed result }) refl events s
        (record { flight = h; known = known }) in
    rw settled.flight (ap some (cloned-same result))
