-- ===== src/RateLimit/Buckets.antt =====
-- A bucket against the log of what was admitted, through each part of `check`.
use linkex.Shared.{
  ℕ, ◌+◌, ◌*◌, ◌≤◌, ◌<◌, String, ◌≡◌, inl, inr, false, ◌&&◌, Option, none, some, List, [], ◌∷◌,
  ◌++◌, arith, ltb, ◌==◌, nat_eq, string_eq, if◌then◌else◌, Bool-cases, length, All, All-append,
  get, insert, get-insert, DistinctKeys, insert-DistinctKeys, kept, get-retain, retain-DistinctKeys,
}
use linkex.RateLimit.{
  max_identities, Hits, Identities, expire, is_recent, hits_or, hits_of, evict_stale,
}
use linkex.RateLimit.Hits.{
  within, count, count-append, count-le-length, Ascending, count-expire, Ascending-expire,
  expire-All, count-stale, Ascending-append,
}

-- A request and the reading of the clock at it.
abbrev pub Request : Type 0
Request = String × ℕ

-- The map, and the requests that were admitted so far.
abbrev pub Run : Type 0
Run = Identities × List Request

-- How many requests of `j` the log has in the window of length `w` that begins at `lo`.
unfoldable pub count_of : String → ℕ → ℕ → List Request → ℕ
count_of j lo w [] = 0
count_of j lo w ((k, t) ∷ log) = (if k == j && within lo w t then 1 else 0) + count_of j lo w log

All-le_trans : (a b : ℕ) (xs : Hits) → a ≤ b → All (λ t. t ≤ a) xs → All (λ t. t ≤ b) xs
All-le_trans a b [] h _ = tt
All-le_trans a b (x ∷ xs) h (p, ps) = (omega arith, All-le_trans a b xs h ps)

module _ (limit w : ℕ) (j : String) where
  -- A bucket of `j` accounts for every admitted request of `j` that a window up to now can hold.
  pub record Accounts (now : ℕ) (hits : Hits) (log : List Request) : Type 0 where
    pub ascending : Ascending hits
    pub passed : All (λ t. t ≤ now) hits
    pub recent : (lo : ℕ) → now ≤ lo + w → count_of j lo w log ≤ count lo w hits
    pub bound : (lo : ℕ) → count_of j lo w log ≤ limit

  Accounts-later :
      (last now : ℕ) (hits : Hits) (log : List Request)
      → last ≤ now
      → Accounts last hits log
      → Accounts now hits log
  Accounts-later last now hits log h a = record {
    ascending = a.ascending;
    passed = All-le_trans last now hits h a.passed;
    recent = λ lo k. a.recent lo (omega arith);
    bound = a.bound;
  }

  Accounts-expire :
      (now : ℕ) (hits : Hits) (log : List Request)
      → Accounts now hits log
      → Accounts now (expire now w hits) log
  Accounts-expire now hits log a = record {
    ascending = Ascending-expire now w hits a.ascending;
    passed = expire-All (λ t. t ≤ now) now w hits a.passed;
    recent = λ lo k. omega (arith, a.recent lo k, count-expire now lo w hits k);
    bound = a.bound;
  }

  -- An admitted request keeps the count below the limit in every window.
  Accounts-admitted :
      (now : ℕ) (hits : Hits) (log : List Request)
      → length hits < limit
      → Accounts now hits log
      → Accounts now (hits ++ now ∷ []) ((j, now) ∷ log)
  unfolding count_of count
  Accounts-admitted now hits log k a = record {
    ascending = Ascending-append hits now a.ascending a.passed;
    passed = All-append (λ t. t ≤ now) hits (now ∷ []) a.passed (omega arith, tt);
    recent = λ lo h. ground (arith, a.recent lo h, count-append lo w hits (now ∷ []));
    bound = λ lo. ground (arith, a.bound lo, a.recent lo, count-le-length lo w hits);
  }

  Accounts-other :
      (now : ℕ) (k : String) (hits : Hits) (log : List Request)
      → (k == j) ≡ false
      → Accounts now hits log
      → Accounts now hits ((k, now) ∷ log)
  unfolding count_of
  Accounts-other now k hits log e a = record {
    ascending = a.ascending;
    passed = a.passed;
    recent = λ lo h. ground (arith, a.recent lo h);
    bound = λ lo. ground (arith, a.bound lo);
  }

  Accounts-stale :
      (now : ℕ) (hits : Hits) (log : List Request)
      → Accounts now hits log
      → is_recent now w hits ≡ false
      → Accounts now [] log
  unfolding count
  Accounts-stale now hits log a e = record {
    ascending = tt;
    passed = tt;
    recent = λ lo k. omega (arith, a.recent lo k, count-stale now lo w hits a.ascending k e);
    bound = a.bound;
  }

  Accounts-kept :
      (now : ℕ) (o : Option Hits) (log : List Request)
      → Accounts now (hits_or o) log
      → Accounts now (hits_or (kept (is_recent now w) o)) log
  Accounts-kept now none log a = a
  Accounts-kept now (some hits) log a = elim (Bool-cases (is_recent now w hits)) [
    | inl e ↦ rw e a
    | inr e ↦ rw e (Accounts-stale now hits log a e)
  ]

  -- What holds of the map and the log between two requests.
  pub record Keeps (now : ℕ) (r : Run) : Type 0 where
    pub distinct : DistinctKeys r.0
    pub bucket : Accounts now (hits_of j r.0) r.1

  pub Keeps-evict_stale :
      (now : ℕ) (ids : Identities) (log : List Request)
      → Keeps now (ids, log)
      → Keeps now (evict_stale now w ids, log)
  unfolding evict_stale
  Keeps-evict_stale now ids log h = elim (Bool-cases (ltb (max_identities * 2) (length ids))) [
    | inr e ↦ rw e h
    | inl e ↦ rw e (record {
      distinct = retain-DistinctKeys (is_recent now w) ids h.distinct;
      bucket =
          rw (get-retain (is_recent now w) j ids h.distinct)
            (Accounts-kept now (get j ids) log h.bucket);
    })
  ]

  Keeps-insert :
      (now : ℕ) (k : String) (hits : Hits) (ids : Identities) (log : List Request)
      → DistinctKeys ids
      → Accounts now (if k == j then hits else hits_of j ids) log
      → Keeps now (insert k hits ids, log)
  Keeps-insert now k hits ids log d a = record {
    distinct = insert-DistinctKeys k hits ids d;
    bucket =
        rw (get-insert k j hits ids)
          (elim (Bool-cases (k == j)) [ inl e ↦ rw e (rw e at a) | inr e ↦ rw e (rw e at a) ]);
  }

  -- A request that is turned away.
  pub Keeps-denied :
      (last now : ℕ) (k : String) (ids : Identities) (log : List Request)
      → last ≤ now
      → Keeps last (ids, log)
      → Keeps now (insert k (expire now w (hits_of k ids)) ids, log)
  Keeps-denied last now k ids log h a =
      let later = Accounts-later last now (hits_of j ids) log h a.bucket in
      Keeps-insert now k (expire now w (hits_of k ids)) ids log a.distinct
        (elim (Bool-cases (k == j)) [
          | inl e ↦
              rw (e, (string_eq.same_iff k j).0 e) (Accounts-expire now (hits_of j ids) log later)
          | inr e ↦ rw e later
        ])

  -- A request that is admitted.
  pub Keeps-admitted :
      (last now : ℕ) (k : String) (ids : Identities) (log : List Request)
      → last ≤ now
      → Keeps last (ids, log)
      → length (expire now w (hits_of k ids)) < limit
      → Keeps now (insert k (expire now w (hits_of k ids) ++ now ∷ []) ids, (k, now) ∷ log)
  Keeps-admitted last now k ids log h a room =
      let later = Accounts-later last now (hits_of j ids) log h a.bucket in
      let hits = expire now w (hits_of k ids) ++ now ∷ [] in
      Keeps-insert now k hits ids ((k, now) ∷ log) a.distinct (elim (Bool-cases (k == j)) [
        | inl e ↦
            let same : k ≡ j = (string_eq.same_iff k j).0 e in
            rw (e, same)
              (Accounts-admitted now (expire now w (hits_of j ids)) log (rw same at room)
                (Accounts-expire now (hits_of j ids) log later))
        | inr e ↦ rw e (Accounts-other now k (hits_of j ids) log e later)
      ])
