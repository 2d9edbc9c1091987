-- ===== src/Billing/Ledger.antt =====
-- The requests of one account in any interleaving: reservations and settlements, each of them one
-- step of Redis, in the order in which Redis runs them.
use linkex.Shared.{
  ℕ, zero, suc, ◌+◌, ◌-◌, ◌≤◌, ◌≡◌, inl, inr, Option, none, some, List, [], ◌∷◌, arith, leb, nat_eq,
  string_eq, leb→le, Bool-cases, Option-cases,
}
use linkex.Shared.Int.{ℤ, pos, int_eq}
use linkex.Error.{Result, ok, err}
use linkex.Billing.Commands.{Redis, IsRedis}
use linkex.Billing.{BillingIdentity, BillingReservation, redis, answered, reserve, settle}
use linkex.Billing.Accounts.{Holds, reserve-enough, reserve-short, settle-enough, settle-short}

-- `reserved` holds the amounts of the requests under way, and `charged` what was settled.
pub record Ledger (S : Type 0) : Type 0 where
  pub store : S
  pub reserved : List ℕ
  pub charged : ℕ

-- A request reserves an amount; the `n`th request under way settles at a price.
pub data Event : Type 0 where
  reserving : ℕ → Event
  settling : ℕ → ℕ → Event

-- The `n`th amount and the others.
unfoldable pub take_out : ℕ → List ℕ → Option (ℕ × List ℕ)
take_out n [] = none
take_out zero (c ∷ cs) = some (c, cs)
take_out (suc n) (c ∷ cs) = elim (take_out n cs) [ none ↦ none | some (d, ds) ↦ some (d, c ∷ ds) ]

abbrev pub sum : List ℕ → ℕ
sum [] = 0
sum (c ∷ cs) = c + sum cs

module _ {S : Type 0} (r : Redis S) (i : BillingIdentity) where
  reserved_amount : ℕ → Ledger S → S × Result BillingReservation → Ledger S
  reserved_amount c l (s, ok _) = record l { store = s; reserved = c ∷ l.reserved }
  reserved_amount c l (s, err _) = record l { store = s }

  settled_amount : ℕ → List ℕ → Ledger S → S × Result ℤ → Ledger S
  settled_amount price others l (s, ok _) = record {
    store = s;
    reserved = others;
    charged = l.charged + price;
  }
  settled_amount price others l (s, err _) = record l { store = s; reserved = others }

  settle_one : ℕ → Ledger S → Option (ℕ × List ℕ) → Ledger S
  unfolding settled_amount
  settle_one price l none = l
  settle_one price l (some (c, others)) = settled_amount price others l (
      settle r redis answered answered (record { identity = i; reserved_cents = pos c }) (pos price)
        l.store)

  unfoldable pub step : Event → Ledger S → Ledger S
  unfolding reserved_amount settle_one
  step (reserving c) l = reserved_amount c l (reserve r redis answered answered i (pos c) l.store)
  step (settling n price) l = settle_one price l (take_out n l.reserved)

  unfoldable pub run : List Event → Ledger S → Ledger S
  run [] l = l
  run (e ∷ events) l = run events (step e l)

take_out-sum :
    (n : ℕ) (cs : List ℕ) (c : ℕ) (others : List ℕ)
    → take_out n cs ≡ some (c, others)
    → c + sum others ≡ sum cs
unfolding take_out
take_out-sum n [] c others h = cc
take_out-sum zero (d ∷ cs) c others h = ground arith
take_out-sum (suc n) (d ∷ cs) c others h = elim (Option-cases (take_out n cs)) [
  | inl e ↦ absurd (ground arith)
  | inr ((x, xs), e) ↦ ground (arith, take_out-sum n cs x xs e)
]

module _ {S : Type 0} (r : Redis S) (law : IsRedis r) (i : BillingIdentity) where
  -- The account holds a balance that is not negative, and with what is reserved and what was
  -- charged it comes to `total`.
  abbrev pub Balanced : ℕ → Ledger S → Type 0
  Balanced total l = (b : ℕ) × Holds r i b l.store × (b + sum l.reserved + l.charged ≡ total)

  step-reserving :
      (total c : ℕ) (l : Ledger S) → Balanced total l → Balanced total (step r i (reserving c) l)
  unfolding step
  step-reserving total c l (b, h, e) = elim (Bool-cases (leb c b)) [
    | inl k ↦
        let (reserved, held) = reserve-enough r law i b c l.store h (leb→le c b k) in
        rw reserved (b - c, held, omega (arith, leb→le c b k))
    | inr k ↦ rw (reserve-short r law i b c l.store h (ground arith)) (b, h, e)
  ]

  settle_one-Balanced :
      (total price c : ℕ) (others : List ℕ) (l : Ledger S)
      → Balanced total l
      → c + sum others ≡ sum l.reserved
      → Balanced total (settle_one r i price l (some (c, others)))
  unfolding settle_one
  settle_one-Balanced total price c others l (b, h, e) k = elim (Bool-cases (leb price (b + c))) [
    | inl p ↦
        let q : price ≤ b + c = leb→le price (b + c) p in
        let (paid, left) = settle-enough r law i b c price l.store h q in
        rw paid (b + c - price, left, omega arith)
    | inr p ↦
        let (short, left) = settle-short r law i b c price l.store h (ground arith) in
        rw short (b + c, left, omega arith)
  ]

  step-settling :
      (total n price : ℕ) (l : Ledger S)
      → Balanced total l
      → Balanced total (step r i (settling n price) l)
  unfolding step
  step-settling total n price l h = elim (Option-cases (take_out n l.reserved)) [
    | inl e ↦ rw e h
    | inr ((c, others), e) ↦
        rw e (settle_one-Balanced total price c others l h (take_out-sum n l.reserved c others e))
  ]

  -- In every interleaving of reservations and settlements of one account, its balance never turns
  -- negative, and the balance, the amounts reserved and the amounts charged always come to the same
  -- total: no credit is lost, made or charged twice.
  pub run-Balanced :
      (events : List Event) (total : ℕ) (l : Ledger S)
      → Balanced total l
      → Balanced total (run r i events l)
  unfolding run
  run-Balanced [] total l h = h
  run-Balanced (reserving c ∷ events) total l h =
      run-Balanced events total (step r i (reserving c) l) (step-reserving total c l h)
  run-Balanced (settling n price ∷ events) total l h =
      run-Balanced events total (step r i (settling n price) l) (step-settling total n price l h)
