-- ===== src/Flight/Dropped.antt =====
-- A fetch that panics.
use linkex.Shared.{
  ℕ, ◌<◌, String, ◌≡◌, refl, sym, ap, ◌∙◌, inl, inr, true, false, Option, none, some, List, [], ◌∷◌,
  arith, ◌==◌, nat_eq, string_eq, Bool-cases, get, get-insert, get-remove,
}
use linkex.Error.{err, internal}
use linkex.Flight.{
  FlightState, pending, dropped, landed, Flight, Flights, Event, join, land, drop, leave, is_landed,
  is_pending, joined, ended, left, received, poll, step, run,
}
use linkex.Flight.Single.{orderly, orderly_step, leaves_own}

module _ {P : Type 0} (i : ℕ) (f : Flight P) (panicked : f.state ≡ dropped) where
  -- The map leads callers of the key to the dropped flight.
  pub record IsStuck (s : Flights P) : Type 0 where
    pub flight : get i s.flights ≡ some f
    pub entry : get f.key s.inflight ≡ some i
    pub known : i < s.next

  joined-IsStuck :
      (key : String) (s : Flights P) (o : Option ℕ)
      → get key s.inflight ≡ o
      → IsStuck s
      → IsStuck (joined key s o)
  unfolding joined
  joined-IsStuck key s (some j) e h = h
  joined-IsStuck key s none e h =
      let new : Flight P = record { key = key; state = pending } in
      let other : (key == f.key) ≡ false = elim (Bool-cases (key == f.key)) [
        | inl g ↦ cc (ap (λ k. get k s.inflight) ((string_eq.same_iff key f.key).0 g), h.entry, e)
        | inr g ↦ g
      ] in
      let apart : (s.next == i) ≡ false = ground (arith, h.known) in
      record {
        flight = get-insert s.next i new s.flights ∙ rw apart h.flight;
        entry = get-insert key f.key s.next s.inflight ∙ rw other h.entry;
        known = omega (arith, h.known);
      }

  ended-IsStuck :
      (j : ℕ) (state : FlightState P) (s : Flights P) (o : Option (Flight P))
      → get j s.flights ≡ o
      → IsStuck s
      → IsStuck (ended j state s o)
  unfolding ended
  ended-IsStuck j state s none e h = h
  ended-IsStuck j state s (some g) e h = elim (Bool-cases (is_pending g.state)) [
    | inl p ↦
        let new : Flight P = record { key = g.key; state = state } in
        let apart : (j == i) ≡ false = elim (Bool-cases (j == i)) [
          | inl q ↦
              let same : some g ≡ some f =
                sym e ∙ ap (λ k. get k s.flights) ((nat_eq.same_iff j i).0 q) ∙ h.flight in
              let same_flight : g ≡ f = cc in
              cc (rw (ap (λ x. x.state) same_flight ∙ panicked) at p)
          | inr q ↦ q
        ] in
        rw p (record {
          flight = get-insert j i new s.flights ∙ rw apart h.flight;
          entry = h.entry;
          known = h.known;
        })
    | inr p ↦ rw p h
  ]

  left-IsStuck :
      (j : ℕ) (s : Flights P) (o : Option (Flight P))
      → get j s.flights ≡ o
      → leaves_own j s o ≡ true
      → IsStuck s
      → IsStuck (left s o)
  unfolding left leaves_own
  left-IsStuck j s none e own h = h
  left-IsStuck j s (some g) e own h = elim (Bool-cases (is_landed g.state)) [
    | inl p ↦
        let other : (g.key == f.key) ≡ false = elim (Bool-cases (g.key == f.key)) [
          | inl q ↦
              let at_key : get g.key s.inflight ≡ some i =
                ap (λ k. get k s.inflight) ((string_eq.same_iff g.key f.key).0 q) ∙ h.entry in
              let owned : (i == j) ≡ true = rw at_key at (rw p at own) in
              let same : some g ≡ some f =
                sym e
                ∙ ap (λ k. get k s.flights) (sym ((nat_eq.same_iff i j).0 owned))
                ∙ h.flight in
              let same_flight : g ≡ f = cc in
              cc (rw (ap (λ x. x.state) same_flight ∙ panicked) at p)
          | inr q ↦ q
        ] in
        rw p (record {
          flight = h.flight;
          entry = get-remove g.key f.key s.inflight ∙ rw other h.entry;
          known = h.known;
        })
    | inr p ↦ rw p h
  ]

  step-IsStuck :
      (e : Event P) (s : Flights P) → orderly_step e s ≡ true → IsStuck s → IsStuck (step e s)
  unfolding step orderly_step
  step-IsStuck (join key) s own h = joined-IsStuck key s (get key s.inflight) refl h
  step-IsStuck (land j result) s own h = ended-IsStuck j (landed result) s (get j s.flights) refl h
  step-IsStuck (drop j) s own h = ended-IsStuck j dropped s (get j s.flights) refl h
  step-IsStuck (leave j) s own h = left-IsStuck j s (get j s.flights) refl own h

  run-IsStuck :
      (events : List (Event P)) (s : Flights P)
      → orderly events s ≡ true
      → IsStuck s
      → IsStuck (run events s)
  unfolding run orderly
  run-IsStuck [] s own h = h
  run-IsStuck (e ∷ events) s own h =
      run-IsStuck events (step e s) (ground arith) (step-IsStuck e s (ground arith) h)

  -- Once the fetch of a key has panicked, every later caller of the key is led to it and gets an
  -- internal error, whatever happens in between, unless a caller of another flight removes the key.
  pub dropped-stuck :
      (events : List (Event P)) (s : Flights P)
      → orderly events s ≡ true
      → IsStuck s
      → (get f.key (run events s).inflight ≡ some i)
        × (poll i (run events s) ≡ some (err (internal "in-flight fetch dropped")))
  unfolding poll received
  dropped-stuck events s own h =
      let stuck = run-IsStuck events s own h in (stuck.entry, rw (stuck.flight, panicked))
