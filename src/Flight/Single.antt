-- ===== src/Flight/Single.antt =====
-- When one fetch at most is under way for each key.
use linkex.Shared.{
  ℕ, String, ◌≡◌, refl, sym, ap, ◌∙◌, inl, inr, Bool, true, false, not, ◌&&◌, ◌||◌, Option, none,
  some, List, [], ◌∷◌, arith, ◌==◌, nat_eq, string_eq, Bool-cases, get, insert, remove, get-insert,
  get-remove,
}
use linkex.Flight.{
  FlightState, pending, dropped, landed, Flight, Flights, Event, join, land, drop, leave, set_state,
  is_landed, is_pending, joined, ended, left, step, run,
}

abbrev holds : ℕ → Option ℕ → Bool
holds i none = false
holds i (some j) = j == i

-- The map has nothing else than the flight itself for a key.
abbrev pub owns : ℕ → Option ℕ → Bool
owns i none = true
owns i (some j) = j == i

covered-absent :
    (b : Bool) (i : ℕ) (x y : Option ℕ)
    → (not b || holds i x) ≡ true
    → x ≡ none
    → (not b || holds i y) ≡ true
covered-absent false i x y h e = refl
covered-absent true i x y h e = cc (rw e at h)

covered-apart :
    (b : Bool) (i j : ℕ) (x y : Option ℕ)
    → owns i x ≡ true
    → (not b || holds j x) ≡ true
    → (j == i) ≡ false
    → (not b || holds j y) ≡ true
covered-apart false i j x y own h ne = refl
covered-apart true i j none y own h ne = cc
covered-apart true i j (some k) y own h ne = ground arith

holds-same : (i j : ℕ) (x : Option ℕ) → holds i x ≡ true → holds j x ≡ true → i ≡ j
holds-same i j none h k = cc
holds-same i j (some n) h k = ground arith

landed-not_pending :
    {P : Type 0} (state : FlightState P) → is_landed state ≡ true → is_pending state ≡ false
landed-not_pending pending h = cc
landed-not_pending dropped h = cc
landed-not_pending (landed result) h = refl

module _ {P : Type 0} where
  abbrev pub empty : Flights P
  empty = record { inflight = []; flights = []; next = 0 }

  unfoldable pub leaves_own : ℕ → Flights P → Option (Flight P) → Bool
  leaves_own i s none = true
  leaves_own i s (some f) = not (is_landed f.state) || owns i (get f.key s.inflight)

  unfoldable pub orderly_step : Event P → Flights P → Bool
  orderly_step (join _) s = true
  orderly_step (land _ _) s = true
  orderly_step (drop _) s = true
  orderly_step (leave i) s = leaves_own i s (get i s.flights)

  -- No event of the run removes the key of another flight from the map.
  unfoldable pub orderly : List (Event P) → Flights P → Bool
  orderly [] s = true
  orderly (e ∷ events) s = let rest = orderly events (step e s) in orderly_step e s && rest

  is_covered : List (String × ℕ) → ℕ → Option (Flight P) → Bool
  is_covered inflight i none = true
  is_covered inflight i (some f) = not (is_pending f.state) || holds i (get f.key inflight)

  -- The map has each flight that is under way.
  abbrev IsCovered : Flights P → Type 0
  IsCovered s = (i : ℕ) → is_covered s.inflight i (get i s.flights) ≡ true

  covered-insert :
      (key : String) (n i : ℕ) (inflight : List (String × ℕ)) (o : Option (Flight P))
      → get key inflight ≡ none
      → is_covered inflight i o ≡ true
      → is_covered (insert key n inflight) i o ≡ true
  unfolding is_covered
  covered-insert key n i inflight none h c = refl
  covered-insert key n i inflight (some f) h c = elim (Bool-cases (key == f.key)) [
    | inl e ↦
        let same : get f.key inflight ≡ none =
          ap (λ k. get k inflight) (sym ((string_eq.same_iff key f.key).0 e)) ∙ h in
        rw (get-insert key f.key n inflight, e)
          (covered-absent (is_pending f.state) i (get f.key inflight) (some n) c same)
    | inr e ↦ rw (get-insert key f.key n inflight, e) c
  ]

  covered-remove :
      (key : String) (i j : ℕ) (inflight : List (String × ℕ)) (o : Option (Flight P))
      → owns i (get key inflight) ≡ true
      → (j == i) ≡ false
      → is_covered inflight j o ≡ true
      → is_covered (remove key inflight) j o ≡ true
  unfolding is_covered
  covered-remove key i j inflight none own ne c = refl
  covered-remove key i j inflight (some f) own ne c = elim (Bool-cases (key == f.key)) [
    | inl e ↦
        let same : get f.key inflight ≡ get key inflight =
          ap (λ k. get k inflight) (sym ((string_eq.same_iff key f.key).0 e)) in
        rw (get-remove key f.key inflight, e)
          (covered-apart (is_pending f.state) i j (get key inflight) none own (rw same at c) ne)
    | inr e ↦ rw (get-remove key f.key inflight, e) c
  ]

  joined-IsCovered :
      (key : String) (s : Flights P) (o : Option ℕ)
      → get key s.inflight ≡ o
      → IsCovered s
      → IsCovered (joined key s o)
  unfolding joined is_covered
  joined-IsCovered key s (some j) h c i = c i
  joined-IsCovered key s none h c i =
      let new : Flight P = record { key = key; state = pending } in
      elim (Bool-cases (s.next == i)) [
        | inl e ↦ rw (
          get-insert s.next i new s.flights,
          e,
          get-insert key key s.next s.inflight,
          (string_eq.same_iff key key).1 refl,
          e,
        )
        | inr e ↦
            rw (get-insert s.next i new s.flights, e)
              (covered-insert key s.next i s.inflight (get i s.flights) h (c i))
      ]

  set_state-IsCovered :
      (i : ℕ) (state : FlightState P) (s : Flights P) (f : Flight P)
      → is_pending state ≡ false
      → IsCovered s
      → IsCovered (set_state i state s (some f))
  unfolding is_covered
  set_state-IsCovered i state s f over c j =
      let f' : Flight P = record { key = f.key; state = state } in
      elim (Bool-cases (i == j)) [
        | inl e ↦ rw (get-insert i j f' s.flights, e, over)
        | inr e ↦ rw (get-insert i j f' s.flights, e) (c j)
      ]

  ended-IsCovered :
      (i : ℕ) (state : FlightState P) (s : Flights P) (o : Option (Flight P))
      → is_pending state ≡ false
      → IsCovered s
      → IsCovered (ended i state s o)
  unfolding ended
  ended-IsCovered i state s none over c = c
  ended-IsCovered i state s (some f) over c = elim (Bool-cases (is_pending f.state)) [
    | inl e ↦ rw e (set_state-IsCovered i state s f over c)
    | inr e ↦ rw e c
  ]

  -- A flight that has landed is not covered by need.
  landed-covered :
      (i j : ℕ) (s : Flights P) (f : Flight P)
      → get i s.flights ≡ some f
      → is_landed f.state ≡ true
      → owns i (get f.key s.inflight) ≡ true
      → IsCovered s
      → is_covered (remove f.key s.inflight) j (get j s.flights) ≡ true
  unfolding is_covered
  landed-covered i j s f h over own c = elim (Bool-cases (j == i)) [
    | inl e ↦
        let same : get j s.flights ≡ some f =
          ap (λ k. get k s.flights) ((nat_eq.same_iff j i).0 e) ∙ h in
        rw (same, landed-not_pending f.state over)
    | inr e ↦ covered-remove f.key i j s.inflight (get j s.flights) own e (c j)
  ]

  left-IsCovered :
      (i : ℕ) (s : Flights P) (o : Option (Flight P))
      → get i s.flights ≡ o
      → leaves_own i s o ≡ true
      → IsCovered s
      → IsCovered (left s o)
  unfolding left leaves_own
  left-IsCovered i s none h own c = c
  left-IsCovered i s (some f) h own c = elim (Bool-cases (is_landed f.state)) [
    | inl e ↦ rw e (λ j. landed-covered i j s f h e (rw e at own) c)
    | inr e ↦ rw e c
  ]

  step-IsCovered :
      (e : Event P) (s : Flights P) → orderly_step e s ≡ true → IsCovered s → IsCovered (step e s)
  unfolding step orderly_step
  step-IsCovered (join key) s own c = joined-IsCovered key s (get key s.inflight) refl c
  step-IsCovered (land i result) s own c =
      ended-IsCovered i (landed result) s (get i s.flights) refl c
  step-IsCovered (drop i) s own c = ended-IsCovered i dropped s (get i s.flights) refl c
  step-IsCovered (leave i) s own c = left-IsCovered i s (get i s.flights) refl own c

  run-IsCovered :
      (events : List (Event P)) (s : Flights P)
      → orderly events s ≡ true
      → IsCovered s
      → IsCovered (run events s)
  unfolding run orderly
  run-IsCovered [] s own c = c
  run-IsCovered (e ∷ events) s own c =
      run-IsCovered events (step e s) (ground arith) (step-IsCovered e s (ground arith) c)

  -- However callers and tasks interleave, as long as no one removes the key of another flight from
  -- the map, two fetches for one key are never under way at the same time.
  pub run-single :
      (events : List (Event P)) (i j : ℕ) (f g : Flight P)
      → orderly events empty ≡ true
      → get i (run events empty).flights ≡ some f
      → get j (run events empty).flights ≡ some g
      → is_pending f.state ≡ true
      → is_pending g.state ≡ true
      → f.key ≡ g.key
      → i ≡ j
  unfolding is_covered get
  run-single events i j f g own at_i at_j on_i on_j same =
      let c = run-IsCovered events empty own (λ k. refl) in
      let inflight = (run events empty).inflight in
      let covered_i : holds i (get f.key inflight) ≡ true = rw on_i at (rw at_i at (c i)) in
      let covered_j : holds j (get g.key inflight) ≡ true = rw on_j at (rw at_j at (c j)) in
      holds-same i j (get f.key inflight) covered_i
        (ap (λ k. holds j (get k inflight)) same ∙ covered_j)
