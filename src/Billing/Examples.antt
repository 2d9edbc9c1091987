-- ===== src/Billing/Examples.antt =====
-- A concrete Redis, runs of the billing, and its theorems at concrete accounts.
use linkex.Shared.{
  ℕ, String, ◌≡◌, refl, true, false, ◌&&◌, Option, none, some, List, [], ◌∷◌, arith, ◌==◌, nat_eq,
  string_eq, if◌then◌else◌, is_none,
}
use linkex.Shared.Int.{ℤ, pos, ◌+ℤ◌, ◌-ℤ◌, int_eq}
use text.Mathlib.TextPositions.{eq_refl}
use linkex.Error.{ok, err, insufficient_credit, billing_unavailable}
use linkex.Billing.Commands.{Redis, IsRedis}
use linkex.Billing.{
  BillingIdentity, redis, answered, reply_lost, reserve, authenticate, seed_accounts,
  reserve_script,
}
use linkex.Billing.Accounts.{Holds, reserve-enough, reserve-short}
use linkex.Billing.Charge.{
  Reply, actual_cents, all_answered, charge, charge-enough, charge-short, charge-refused,
}
use linkex.Billing.Ledger.{Ledger, Event, reserving, settling, run, run-Balanced, Balanced}

record Tables : Type 0 where
  ints : String → String → Option ℤ
  texts : String → String → Option String

abbrev written :
    {A : Type 0} → String → String → A → (String → String → Option A) → String → String → Option A
written k f v m j g = if k == j && f == g then some v else m j g

abbrev incremented : Option ℤ → ℤ → ℤ
incremented none d = d
incremented (some n) d = n +ℤ d

abbrev tables : Redis Tables
tables = record {
  hget_text = λ k f s. s.texts k f;
  hget_int = λ k f s. s.ints k f;
  hsetnx_text =
      λ k f v s. if is_none (s.texts k f) then record s { texts = written k f v s.texts } else s;
  hsetnx_int =
      λ k f v s. if is_none (s.ints k f) then record s { ints = written k f v s.ints } else s;
  hincrby = λ k f d s. (
    record s { ints = written k f (incremented (s.ints k f) d) s.ints },
    incremented (s.ints k f) d,
  );
}

tables-IsRedis : IsRedis tables
tables-IsRedis = record {
  hincrby_value = λ k f d n s h. rw h;
  hget-hincrby = λ k f d n s h. rw (eq_refl k, eq_refl f, h);
  hget-hincrby_text = λ k f j g d s. refl;
  hget-hincrby_ne = λ k f j g d s ne. ground (arith, string_eq.same_iff k j);
}

abbrev ada : BillingIdentity
ada = record { redis_key = "tross:account:ada"; email = "ada@example.com" }

abbrev credit : ℕ → Tables
credit n = record {
  ints = written "tross:account:ada" "balance_cents" (pos n) (λ k f. none);
  texts = written "tross:account:ada" "email" "ada@example.com" (λ k f. none);
}

credit-Holds : (n : ℕ) → Holds tables ada n (credit n)
credit-Holds n = record { balance = refl; email = refl }

abbrev handler : Reply → Tables → Tables × Reply
handler reply s = (s, reply)

abbrev missed : Reply
missed = record { is_success = true; cache_hit = false }

-- The reply to the reservation is lost: the client is told that billing is unavailable, and the
-- price is off the balance.
lost_reply :
    ((reserve tables redis reply_lost answered ada (pos 25) (credit 100)).1
      ≡ err billing_unavailable)
    × ((reserve tables redis reply_lost answered ada (pos 25) (credit 100)).0.ints
          "tross:account:ada" "balance_cents"
        ≡ some (pos 75))
unfolding reserve reserve_script ◌+ℤ◌ ◌-ℤ◌
lost_reply = (refl, refl)

seeded :
    (authenticate tables
      (λ k. k)
      redis
      answered
      "tross_sk_1"
      (seed_accounts tables
        (λ k. k)
        (record { email = "a"; api_key = "tross_sk_1"; initial_credit_cents = pos 5 } ∷ [])
        (credit 0)).0).1
    ≡ ok (record { redis_key = "tross:account:tross_sk_1"; email = "a" })
unfolding authenticate seed_accounts
seeded = refl

reserve-enough_example :
    ((reserve tables redis answered answered ada (pos 25) (credit 100)).1
      ≡ ok (record { identity = ada; reserved_cents = pos 25 }))
    × Holds tables ada 75 (reserve tables redis answered answered ada (pos 25) (credit 100)).0
reserve-enough_example =
    reserve-enough tables tables-IsRedis ada 100 25 (credit 100) (credit-Holds 100) (omega arith)

reserve-short_example :
    reserve tables redis answered answered ada (pos 25) (credit 10)
    ≡ (credit 10, err (insufficient_credit (pos 10) (pos 25)))
reserve-short_example =
    reserve-short tables tables-IsRedis ada 10 25 (credit 10) (credit-Holds 10) (omega arith)

charge-enough_example :
    ((charge tables (pos 25) (pos 50) (handler missed) redis all_answered ada (credit 100)).1
      ≡ ok (record { reply = missed; balance = pos 50; cost = pos 50 }))
    × Holds tables ada 50
        (charge tables (pos 25) (pos 50) (handler missed) redis all_answered ada (credit 100)).0
unfolding actual_cents
charge-enough_example =
    charge-enough tables tables-IsRedis ada 25 50 100 (handler missed) (credit 100) missed
      (λ n t h. h) (λ t. refl) (credit-Holds 100) (omega arith) (omega arith)

charge-short_example :
    ((charge tables (pos 25) (pos 50) (handler missed) redis all_answered ada (credit 30)).1
      ≡ err (insufficient_credit (pos 30) (pos 50)))
    × Holds tables ada 30
        (charge tables (pos 25) (pos 50) (handler missed) redis all_answered ada (credit 30)).0
unfolding actual_cents
charge-short_example =
    charge-short tables tables-IsRedis ada 25 50 30 (handler missed) (credit 30) missed (λ n t h. h)
      (λ t. refl) (credit-Holds 30) (omega arith) (omega arith)

charge-refused_example :
    charge tables (pos 25) (pos 50) (handler missed) redis all_answered ada (credit 10)
    ≡ (credit 10, err (insufficient_credit (pos 10) (pos 25)))
charge-refused_example =
    charge-refused tables tables-IsRedis ada 25 50 10 (handler missed) (credit 10) (credit-Holds 10)
      (omega arith)

abbrev opening : Ledger Tables
opening = record { store = credit 100; reserved = []; charged = 0 }

abbrev day : List Event
day = reserving 25 ∷ reserving 25 ∷ settling 1 50 ∷ reserving 60 ∷ settling 0 0 ∷ []

run-Balanced_example : Balanced tables tables-IsRedis ada 100 (run tables ada day opening)
run-Balanced_example =
    run-Balanced tables tables-IsRedis ada day 100 opening (100, credit-Holds 100, refl)
