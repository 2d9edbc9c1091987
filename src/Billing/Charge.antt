-- ===== src/Billing/Charge.antt =====
-- src/api/middleware.rs, the billing of one request in `api_key_and_rate_limit`: the price of a hit
-- is reserved, the handler runs, and the reservation is settled at the price of its answer.
use linkex.Shared.{
  not, inl, inr, Bool-cases, ℕ, ◌+◌, ◌-◌, ◌≤◌, ◌<◌, ◌≡◌, refl, Bool, arith, nat_eq, string_eq,
  if◌then◌else◌,
}
use linkex.Shared.Int.{ℤ, pos, int_eq}
use linkex.Error.{Result, ok, err, insufficient_credit}
use linkex.Billing.Commands.{Redis, IsRedis}
use linkex.Billing.{
  BillingIdentity, BillingReservation, BillingStore, redis, Delivery, answered, reserve, settle,
}
use linkex.Billing.Accounts.{Holds, reserve-enough, reserve-short, settle-enough, settle-short}

-- What the billing reads of the handler's response: its status class, and its `X-Cache` header.
pub record Reply : Type 0 where
  pub is_success : Bool
  pub cache_hit : Bool

-- `actual_cents`
unfoldable pub actual_cents : ℤ → ℤ → Reply → ℤ
actual_cents hit miss reply =
    if reply.is_success then (if reply.cache_hit then hit else miss) else pos 0

-- The response with the two headers that it is given: the balance and the cost.
pub record Billed : Type 0 where
  pub reply : Reply
  pub balance : ℤ
  pub cost : ℤ

-- The five round trips at most: two for `reserve`, two for `settle`.
pub record Deliveries : Type 0 where
  pub reserving : Delivery
  pub reserving_account : Delivery
  pub settling : Delivery
  pub settling_account : Delivery

abbrev pub all_answered : Deliveries
all_answered = record {
  reserving = answered;
  reserving_account = answered;
  settling = answered;
  settling_account = answered;
}

module _ {S : Type 0} (r : Redis S) (hit miss : ℤ) (next : S → S × Reply) where
  billed : Reply → ℤ → S × Result ℤ → S × Result Billed
  billed reply cost (s, ok balance) =
      (s, ok (record { reply = reply; balance = balance; cost = cost }))
  billed reply cost (s, err e) = (s, err e)

  after_reserve : BillingStore → Deliveries → S × Result BillingReservation → S × Result Billed
  after_reserve store ds (s, err e) = (s, err e)
  after_reserve store ds (s, ok reservation) =
      let (s', reply) = next s in
      billed reply (actual_cents hit miss reply) (
        settle r store ds.settling ds.settling_account reservation (actual_cents hit miss reply) s')

  unfoldable pub charge : BillingStore → Deliveries → BillingIdentity → S → S × Result Billed
  unfolding after_reserve billed
  charge store ds identity s =
      after_reserve store ds (reserve r store ds.reserving ds.reserving_account identity hit s)

-- What a request costs: the hit price if the answer came from the cache, the miss price if it did
-- not, and nothing where the handler failed.
abbrev pub price : ℕ → ℕ → Reply → ℕ
price hit miss reply = if not reply.is_success then 0 else if reply.cache_hit then hit else miss

actual_cents-price :
    (hit miss : ℕ) (reply : Reply)
    → actual_cents (pos hit) (pos miss) reply ≡ pos (price hit miss reply)
unfolding actual_cents
actual_cents-price hit miss reply = elim (Bool-cases reply.is_success) [
  | inl g ↦ rw g (elim (Bool-cases reply.cache_hit) [ inl h ↦ rw h | inr h ↦ rw h ])
  | inr g ↦ rw g
]

module _ {S : Type 0} (r : Redis S) (law : IsRedis r) (i : BillingIdentity) where
  module _ (hit miss b : ℕ) (next : S → S × Reply) (s : S) (reply : Reply)
      (keeps : (n : ℕ) (t : S) → Holds r i n t → Holds r i n (next t).0)
      (replies : (t : S) → (next t).1 ≡ reply) (holds : Holds r i b s) (affords : hit ≤ b) where
    -- A request whose account can pay the hit price beforehand, and the price of the answer, is
    -- answered with the new balance and that price, and exactly the price leaves the account: the
    -- hit price, the miss price, or nothing where the handler failed.
    pub charge-enough :
        price hit miss reply ≤ b
        → ((charge r (pos hit) (pos miss) next redis all_answered i s).1
            ≡ ok (record {
              reply = reply;
              balance = pos (b - price hit miss reply);
              cost = pos (price hit miss reply);
            }))
          × Holds r i
              (b - price hit miss reply)
              (charge r (pos hit) (pos miss) next redis all_answered i s).0
    unfolding charge
    charge-enough k =
        let (reserved, held) = reserve-enough r law i b hit s holds affords in
        let kept = keeps (b - hit) _ held in
        let (paid, left) =
          settle-enough r law i (b - hit) hit (price hit miss reply) _ kept (omega arith) in
        let e : b - hit + hit - price hit miss reply ≡ b - price hit miss reply = omega arith in
        rw (reserved, replies, actual_cents-price hit miss reply, paid, e) (refl, rw e at left)

    -- If the account can pay the hit price but not the price of the answer, the handler has run,
    -- the answer is withheld with `insufficient_credit`, and the account is left as it was.
    pub charge-short :
        b < price hit miss reply
        → ((charge r (pos hit) (pos miss) next redis all_answered i s).1
            ≡ err (insufficient_credit (pos b) (pos (price hit miss reply))))
          × Holds r i b (charge r (pos hit) (pos miss) next redis all_answered i s).0
    unfolding charge
    charge-short k =
        let (reserved, held) = reserve-enough r law i b hit s holds affords in
        let kept = keeps (b - hit) _ held in
        let (short, left) =
          settle-short r law i (b - hit) hit (price hit miss reply) _ kept (omega arith) in
        let e : b - hit + hit ≡ b = omega arith in
        rw (reserved, replies, actual_cents-price hit miss reply, short, e) (refl, rw e at left)

  -- An account that cannot pay the hit price: nothing changes, and the handler does not run.
  pub charge-refused :
      (hit miss b : ℕ) (next : S → S × Reply) (s : S)
      → Holds r i b s
      → b < hit
      → charge r (pos hit) (pos miss) next redis all_answered i s
        ≡ (s, err (insufficient_credit (pos b) (pos hit)))
  unfolding charge
  charge-refused hit miss b next s h k = rw (reserve-short r law i b hit s h k)
