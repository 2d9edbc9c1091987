-- ===== src/Billing/Accounts.antt =====
-- What `reserve` and `settle` do to an account whose balance is not negative, on every branch.
use linkex.Shared.{ℕ, ◌+◌, ◌-◌, ◌≤◌, ◌<◌, ◌≡◌, refl, some, arith, nat_eq, string_eq}
use linkex.Shared.Int.{ℤ, pos, negsuc, ◌+ℤ◌, ◌-ℤ◌, int_eq, int_laws}
use linkex.Error.{ok, err, insufficient_credit}
use linkex.Billing.Commands.{Redis, IsRedis}
use linkex.Billing.{
  BillingIdentity, redis, answered, -ℤ◌, account_of, account, reserve_script, settle_script,
  short_of, reserve, settle,
}

module _ {S : Type 0} (r : Redis S) where
  -- The account of the identity exists and holds `b` cents.
  pub record Holds (i : BillingIdentity) (b : ℕ) (s : S) : Type 0 where
    pub balance : r.hget_int i.redis_key "balance_cents" s ≡ some (pos b)
    pub email : r.hget_text i.redis_key "email" s ≡ some i.email

taken : (b c : ℕ) → c ≤ b → pos b +ℤ (-ℤ◌ (pos c)) ≡ pos (b - c)
taken b c h = omega int_laws

settled :
    (b reserved actual : ℕ)
    → actual ≤ b + reserved
    → pos b +ℤ (pos reserved -ℤ pos actual) ≡ pos (b + reserved - actual)
settled b reserved actual h = omega int_laws

module _ {S : Type 0} (r : Redis S) (law : IsRedis r) (i : BillingIdentity) where
  hincrby-Holds :
      (b b' : ℕ) (d : ℤ) (s : S)
      → Holds r i b s
      → pos b +ℤ d ≡ pos b'
      → Holds r i b' (r.hincrby i.redis_key "balance_cents" d s).0
  hincrby-Holds b b' d s h e = record {
    balance = rw (law.hget-hincrby i.redis_key "balance_cents" d (pos b) s h.balance, e);
    email = rw (law.hget-hincrby_text i.redis_key "balance_cents" i.redis_key "email" d s) h.email;
  }

  hincrby-value :
      (b b' : ℕ) (d : ℤ) (s : S)
      → Holds r i b s
      → pos b +ℤ d ≡ pos b'
      → (r.hincrby i.redis_key "balance_cents" d s).1 ≡ pos b'
  hincrby-value b b' d s h e =
      rw (law.hincrby_value i.redis_key "balance_cents" d (pos b) s h.balance, e)

  short_of-Holds {ℓ} :
      {A : Type ℓ} (b : ℕ) (required : ℤ) (s : S)
      → Holds r i b s
      → short_of r {A = A} redis answered i required s
        ≡ (s, err (insufficient_credit (pos b) required))
  unfolding short_of account account_of
  short_of-Holds b required s h = ground arith

  reserve_script-enough :
      (b c : ℕ) (s : S)
      → Holds r i b s
      → c ≤ b
      → reserve_script r i.redis_key (pos c) s
        ≡ r.hincrby i.redis_key "balance_cents" (-ℤ◌ (pos c)) s
  unfolding reserve_script
  reserve_script-enough b c s h k = ground arith

  reserve_script-short :
      (b c : ℕ) (s : S)
      → Holds r i b s
      → b < c
      → reserve_script r i.redis_key (pos c) s ≡ (s, negsuc 1)
  unfolding reserve_script
  reserve_script-short b c s h k = ground arith

  -- With enough credit, `reserve` answers the reservation and takes its amount off the balance.
  pub reserve-enough :
      (b c : ℕ) (s : S)
      → Holds r i b s
      → c ≤ b
      → ((reserve r redis answered answered i (pos c) s).1
          ≡ ok (record { identity = i; reserved_cents = pos c }))
        × Holds r i (b - c) (reserve r redis answered answered i (pos c) s).0
  unfolding reserve
  reserve-enough b c s h k =
      let d = -ℤ◌ (pos c) in
      let e : pos b +ℤ d ≡ pos (b - c) = taken b c k in
      let value = hincrby-value b (b - c) d s h e in
      let kept = hincrby-Holds b (b - c) d s h e in
      rw (reserve_script-enough b c s h k, value) (refl, kept)

  -- With too little, `reserve` changes nothing and tells the balance and the amount asked for.
  pub reserve-short :
      (b c : ℕ) (s : S)
      → Holds r i b s
      → b < c
      → reserve r redis answered answered i (pos c) s
        ≡ (s, err (insufficient_credit (pos b) (pos c)))
  unfolding reserve
  reserve-short b c s h k = rw (reserve_script-short b c s h k) (short_of-Holds b (pos c) s h)

  settle_script-enough :
      (b reserved actual : ℕ) (s : S)
      → Holds r i b s
      → actual ≤ b + reserved
      → settle_script r i.redis_key (pos reserved -ℤ pos actual) (pos reserved) s
        ≡ r.hincrby i.redis_key "balance_cents" (pos reserved -ℤ pos actual) s
  unfolding settle_script ◌-ℤ◌
  settle_script-enough b reserved actual s h k = ground arith

  settle_script-short :
      (b reserved actual : ℕ) (s : S)
      → Holds r i b s
      → b + reserved < actual
      → settle_script r i.redis_key (pos reserved -ℤ pos actual) (pos reserved) s
        ≡ ((r.hincrby i.redis_key "balance_cents" (pos reserved) s).0, negsuc 1)
  unfolding settle_script ◌-ℤ◌
  settle_script-short b reserved actual s h k = ground arith

  -- If the balance and the reservation cover the price, `settle` answers the new balance, and the
  -- account holds it: what it held, with the reservation back and the price taken off.
  pub settle-enough :
      (b reserved actual : ℕ) (s : S)
      → Holds r i b s
      → actual ≤ b + reserved
      → ((settle r redis answered answered
            (record { identity = i; reserved_cents = pos reserved })
            (pos actual)
            s).1
          ≡ ok (pos (b + reserved - actual)))
        × Holds r i
            (b + reserved - actual)
            (settle r redis answered answered
              (record { identity = i; reserved_cents = pos reserved })
              (pos actual)
              s).0
  unfolding settle
  settle-enough b reserved actual s h k =
      let d = pos reserved -ℤ pos actual in
      let e : pos b +ℤ d ≡ pos (b + reserved - actual) = settled b reserved actual k in
      let value = hincrby-value b (b + reserved - actual) d s h e in
      let kept = hincrby-Holds b (b + reserved - actual) d s h e in
      rw (settle_script-enough b reserved actual s h k, value) (refl, kept)

  -- If they do not, `settle` gives the reservation back and answers that credit is short, with the
  -- balance that is then held and the price.
  pub settle-short :
      (b reserved actual : ℕ) (s : S)
      → Holds r i b s
      → b + reserved < actual
      → ((settle r redis answered answered
            (record { identity = i; reserved_cents = pos reserved })
            (pos actual)
            s).1
          ≡ err (insufficient_credit (pos (b + reserved)) (pos actual)))
        × Holds r i
            (b + reserved)
            (settle r redis answered answered
              (record { identity = i; reserved_cents = pos reserved })
              (pos actual)
              s).0
  unfolding settle
  settle-short b reserved actual s h k =
      let e : pos b +ℤ pos reserved ≡ pos (b + reserved) = omega int_laws in
      let kept = hincrby-Holds b (b + reserved) (pos reserved) s h e in
      let told = short_of-Holds {A = ℤ} (b + reserved) (pos actual) _ kept in
      rw (settle_script-short b reserved actual s h k, told) (refl, kept)
