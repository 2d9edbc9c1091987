-- ===== src/RateLimit/Growth.antt =====
-- The size of the rate limiter's map.
use linkex.Shared.{
  ℕ, suc, ◌+◌, max, String, ◌≡◌, refl, inl, inr, true, false, none, List, [], ◌∷◌, arith, leb, ◌==◌,
  nat_eq, string_eq, Bool-cases, length, All, get, insert, get-insert, retain,
}
use linkex.RateLimit.{
  Hits, Identities, expire, back, is_recent, hits_of, evict_stale, window_of, check,
}
use linkex.RateLimit.Check.{check-admitted}

module _ (limit window_seconds now : ℕ) where
  -- One request of each identity, all at one time.
  unfoldable pub visit : List String → Identities → Identities
  visit [] ids = ids
  visit (k ∷ ks) ids = visit ks (check k limit window_seconds now ids).0

abbrev pub Unlisted : String → List String → Type 0
Unlisted k ks = All (λ j. (k == j) ≡ false) ks

-- No identity stands twice.
abbrev pub Distinct : List String → Type 0
Distinct [] = Unit
Distinct (k ∷ ks) = Unlisted k ks × Distinct ks

abbrev AllRecent : ℕ → ℕ → Identities → Type 0
AllRecent now w ids = All (λ e. is_recent now w e.1 ≡ true) ids

retain_recent :
    (now w : ℕ) (ids : Identities) → AllRecent now w ids → retain (is_recent now w) ids ≡ ids
unfolding retain
retain_recent now w [] h = refl
retain_recent now w ((k, hits) ∷ ids) (h, hs) = rw (h, retain_recent now w ids hs)

evict_stale_recent :
    (now w : ℕ) (ids : Identities) → AllRecent now w ids → evict_stale now w ids ≡ ids
unfolding evict_stale
evict_stale_recent now w ids h = ground (arith, retain_recent now w ids h)

insert-AllRecent :
    (now w : ℕ) (k : String) (hits : Hits) (ids : Identities)
    → is_recent now w hits ≡ true
    → AllRecent now w ids
    → AllRecent now w (insert k hits ids)
unfolding insert
insert-AllRecent now w k hits [] h hs = (h, tt)
insert-AllRecent now w k hits ((j, v) ∷ ids) h (p, ps) = elim (Bool-cases (j == k)) [
  | inl e ↦ rw e (h, ps)
  | inr e ↦ rw e (p, insert-AllRecent now w k hits ids h ps)
]

length-insert_new :
    (k : String) (hits : Hits) (ids : Identities)
    → get k ids ≡ none
    → length (insert k hits ids) ≡ suc (length ids)
unfolding insert get
length-insert_new k hits [] h = refl
length-insert_new k hits ((j, v) ∷ ids) h = ground (arith, length-insert_new k hits ids)

get-insert_others :
    (k : String) (hits : Hits) (ids : Identities) (ks : List String)
    → Unlisted k ks
    → All (λ j. get j ids ≡ none) ks
    → All (λ j. get j (insert k hits ids) ≡ none) ks
get-insert_others k hits ids [] _ _ = tt
get-insert_others k hits ids (j ∷ ks) (u, us) (h, hs) =
    (rw (get-insert k j hits ids, u) h, get-insert_others k hits ids ks us hs)

module _ (limit window_seconds now : ℕ) where
  abbrev w : ℕ
  w = window_of window_seconds

  recent_now : is_recent now w (now ∷ []) ≡ true
  unfolding back
  recent_now = ground arith

  check_new :
      (k : String) (ids : Identities)
      → get k ids ≡ none
      → AllRecent now w ids
      → (check k limit window_seconds now ids).0 ≡ insert k (now ∷ []) ids
  unfolding expire
  check_new k ids h r =
      rw (check-admitted k limit window_seconds now ids (no_hits h), h, no_hits_left)
        (evict_stale_recent now w (insert k (now ∷ []) ids)
          (insert-AllRecent now w k (now ∷ []) ids recent_now r))
    where
      no_hits_left : expire now w [] ≡ []
      no_hits_left = refl

      no_hits : get k ids ≡ none → leb (max limit 1) (length (expire now w (hits_of k ids))) ≡ false
      no_hits e = rw e (ground arith)

  visit-length :
      (ks : List String) (ids : Identities)
      → Distinct ks
      → All (λ j. get j ids ≡ none) ks
      → AllRecent now w ids
      → length (visit limit window_seconds now ks ids) ≡ length ks + length ids
  unfolding visit
  visit-length [] ids d h r = omega arith
  visit-length (k ∷ ks) ids (u, d) (h, hs) r =
      let ids' = insert k (now ∷ []) ids in
      rw (check_new k ids h r) (
        omega (
          arith,
          visit-length ks ids' d (get-insert_others k (now ∷ []) ids ks u hs)
              (insert-AllRecent now w k (now ∷ []) ids recent_now r),
          length-insert_new k (now ∷ []) ids h,
        ))

  -- The map has a bucket for each of any number of different identities that ask at one time:
  -- nothing bounds it but how many identities are recent.
  pub visit-unbounded :
      (ks : List String) → Distinct ks → length (visit limit window_seconds now ks []) ≡ length ks
  unfolding get
  visit-unbounded ks d = omega (arith, visit-length ks [] d (none_listed ks) tt)
    where
      none_listed : (js : List String) → All (λ j. get {V = Hits} j [] ≡ none) js
      none_listed [] = tt
      none_listed (j ∷ js) = (refl, none_listed js)
