-- ===== src/Flight/Late.antt =====
-- A caller that is late to leave.
use linkex.Shared.{
  ℕ, ◌<◌, String, ◌≡◌, refl, ◌∙◌, false, none, some, [], ◌∷◌, arith, ◌==◌, nat_eq, string_eq, get,
  remove, get-insert, get-remove,
}
use linkex.Error.{Result}
use linkex.Flight.{pending, landed, Flight, Flights, join, leave, joined, left, step, run}

module _ {P : Type 0} where
  left-landed :
      (i : ℕ) (s : Flights P) (f : Flight P) (result : Result P)
      → get i s.flights ≡ some f
      → f.state ≡ landed result
      → step (leave i) s ≡ record s { inflight = remove f.key s.inflight }
  unfolding step left
  left-landed i s f result h l = rw (h, l)

  join-absent :
      (key : String) (s : Flights P)
      → get key s.inflight ≡ none
      → get s.next (step (join key) s).flights ≡ some (record { key = key; state = pending })
  unfolding step joined
  join-absent key s h = rw h (
      get-insert s.next s.next (record { key = key; state = pending }) s.flights
      ∙ rw ((nat_eq.same_iff s.next s.next).1 refl))

  join-keeps :
      (key : String) (j : ℕ) (s : Flights P)
      → get key s.inflight ≡ none
      → (s.next == j) ≡ false
      → get j (step (join key) s).flights ≡ get j s.flights
  unfolding step joined
  join-keeps key j s h ne =
      rw h (get-insert s.next j (record { key = key; state = pending }) s.flights ∙ rw ne)

  -- If a caller of a flight that has landed leaves when another flight for the same key is already
  -- under way, the next caller starts a further one: the two fetch the same profile at the same
  -- time, each with its own number.
  pub late-second_fetch :
      (i j : ℕ) (s : Flights P) (f g : Flight P) (result : Result P)
      → get i s.flights ≡ some f
      → f.state ≡ landed result
      → get j s.flights ≡ some g
      → g.state ≡ pending
      → g.key ≡ f.key
      → j < s.next
      → (get j (run (leave i ∷ join f.key ∷ []) s).flights ≡ some g)
        × (get s.next (run (leave i ∷ join f.key ∷ []) s).flights
            ≡ some (record { key = f.key; state = pending }))
  unfolding run
  late-second_fetch i j s f g result at_i over at_j on same old =
      let s' = record s { inflight = remove f.key s.inflight } in
      let gone : get f.key s'.inflight ≡ none =
        get-remove f.key f.key s.inflight ∙ rw ((string_eq.same_iff f.key f.key).1 refl) in
      rw (left-landed i s f result at_i over)
        (join-keeps f.key j s' gone (ground arith) ∙ at_j, join-absent f.key s' gone)
