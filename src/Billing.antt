-- ===== src/Billing.antt =====
-- src/billing.rs: API-key accounts in Redis and their credit. Redis is not this repository's code:
-- it is a record of the hash commands that the source sends, with the laws that the source relies
-- on. The two Lua scripts are the source's own and are written out; Redis runs a script in one
-- step. Amounts are integers (i64 in the source, a Lua number in a script); no overflow is modelled.
pub mod Commands
pub mod Accounts
pub mod Charge
pub mod Ledger
mod Examples
use linkex.Shared.{
  ℕ, zero, suc, ◌+◌, ◌-◌, ◌*◌, ◌/◌, ◌%◌, ◌≤◌, ◌<◌, min, max, String, ◌≡◌, refl, sym, ap, ◌∙◌, ◌≢◌,
  ◌↔◌, ◌⊎◌, inl, inr, Bool, true, false, not, ◌&&◌, ◌||◌, Option, none, some, List, [], ◌∷◌, ◌++◌,
  map, arith, ltb, leb, PartialEq, ◌==◌, nat_eq, string_eq, if◌then◌else◌, ltb→lt, lt→ltb, leb→le,
  le→leb, Bool-cases, Option-cases, is_none, is_some, or_option, length, length-append, is_empty,
  All, All-append, contains, get, insert, remove, get-insert, get-remove,
}
use linkex.Shared.Int.{
  ℤ, pos, negsuc, pos_part, neg_part, sub_ℕ, ◌+ℤ◌, ◌-ℤ◌, ◌≤ℤ◌, ltb_ℤ, leb_ℤ, int_eq, +ℤ_parts,
  -ℤ_parts, eq_of_parts, int_laws,
}
use text.Mathlib.Text.{starts_with}
use Prim.Native.String
use linkex.Error.{
  Result, ok, err, AppError, api_key_invalid, billing_unavailable, insufficient_credit,
}
use linkex.Billing.Commands.{Redis}

pub record SeedAccount : Type 0 where
  pub email : String
  pub api_key : String
  pub initial_credit_cents : ℤ

pub record Account : Type 0 where
  pub email : String
  pub balance_cents : ℤ

pub record BillingIdentity : Type 0 where
  pub redis_key : String
  pub email : String

pub record BillingReservation : Type 0 where
  pub identity : BillingIdentity
  pub reserved_cents : ℤ

pub data BillingStore : Type 0 where
  disabled redis : BillingStore

unfoldable pub enabled : BillingStore → Bool
enabled disabled = false
enabled redis = true

-- How a round trip ends: answered, or failed before or after Redis ran the commands.
pub data Delivery : Type 0 where
  answered request_lost reply_lost : Delivery

-- `query_async(...).await.map_err(redis_unavailable)?` of commands that take `s` to `s'` and
-- answer `a`, with the rest of the function in `k`.
abbrev pub query {ℓ κ λ'} :
    {S : Type ℓ} {A : Type κ} {B : Type λ'}
    → Delivery
    → S
    → S × A
    → (S → A → S × Result B)
    → S × Result B
query answered s (s', a) k = k s' a
query request_lost s _ k = (s, err billing_unavailable)
query reply_lost s (s', _) k = (s', err billing_unavailable)

-- `connection_for_request`
abbrev pub connected {ℓ κ} :
    {S : Type ℓ} {A : Type κ} → BillingStore → S → S × Result A → S × Result A
connected disabled s _ = (s, err billing_unavailable)
connected redis s r = r

abbrev pub -ℤ◌ : ℤ → ℤ
-ℤ◌ n = pos 0 -ℤ n

-- `match balance { -1 => …, -2 => …, _ => … }`
abbrev pub match_balance {ℓ} : {A : Type ℓ} → ℤ → A → A → A → A
match_balance (negsuc zero) unknown short other = unknown
match_balance (negsuc (suc zero)) unknown short other = short
match_balance _ unknown short other = other

-- The answers of `account` and `authenticate`, from the two fields that they read.
account_of : Option String → Option ℤ → Result Account
account_of (some email) (some balance) = ok (record { email = email; balance_cents = balance })
account_of _ _ = err api_key_invalid

identity_of : String → Option String → Option ℤ → Result BillingIdentity
identity_of redis_key (some email) (some n) =
    if n == pos 1 then ok (record { redis_key = redis_key; email = email }) else err api_key_invalid
identity_of redis_key _ _ = err api_key_invalid

module _ {S : Type 0} (r : Redis S) where
  open r use {hget_text, hget_int, hsetnx_text, hsetnx_int, hincrby}

  unfoldable pub account : BillingStore → Delivery → BillingIdentity → S → S × Result Account
  unfolding account_of
  account store d identity s = connected store s (
      query d s
        (s, (hget_text identity.redis_key "email" s, hget_int identity.redis_key "balance_cents" s))
        (λ s' (email, balance). (s', account_of email balance)))

  -- The script of `reserve`.
  unfoldable pub reserve_script : String → ℤ → S → S × ℤ
  reserve_script key cents s = elim (hget_int key "balance_cents" s) [
    | none ↦ (s, negsuc 0)
    | some balance ↦
        if ltb_ℤ balance cents then (s, negsuc 1) else hincrby key "balance_cents" (-ℤ◌ cents) s
  ]

  -- The script of `settle`.
  unfoldable pub settle_script : String → ℤ → ℤ → S → S × ℤ
  settle_script key delta reserved s = elim (hget_int key "balance_cents" s) [
    | none ↦ (s, negsuc 0)
    | some balance ↦
        if ltb_ℤ delta (pos 0) && ltb_ℤ balance (-ℤ◌ delta)
        then ((hincrby key "balance_cents" reserved s).0, negsuc 1)
        else hincrby key "balance_cents" delta s
  ]

  -- The error of a script that answers -2, with the balance as a second round trip reads it.
  unfoldable pub short_of {ℓ} :
      {A : Type ℓ} → BillingStore → Delivery → BillingIdentity → ℤ → S → S × Result A
  short_of store d identity required s = elim ((account store d identity s).1) [
    | ok a ↦ ((account store d identity s).0, err (insufficient_credit a.balance_cents required))
    | err e ↦ ((account store d identity s).0, err e)
  ]

  unfoldable pub reserve :
      BillingStore → Delivery → Delivery → BillingIdentity → ℤ → S → S × Result BillingReservation
  reserve store d d' identity cents s = connected store s (
      query d s (reserve_script identity.redis_key cents s) (λ s' balance.
        match_balance balance (s', err api_key_invalid) (short_of store d' identity cents s')
          (s', ok (record { identity = identity; reserved_cents = cents }))))

  unfoldable pub settle :
      BillingStore → Delivery → Delivery → BillingReservation → ℤ → S → S × Result ℤ
  settle store d d' reservation actual s = connected store s (
      query d s
        (settle_script reservation.identity.redis_key (reservation.reserved_cents -ℤ actual)
          reservation.reserved_cents s)
        (λ s' balance.
          match_balance balance (s', err api_key_invalid)
            (short_of store d' reservation.identity actual s') (s', ok balance)))

  -- `account_key`: SHA-256 and its hexadecimal form are library code.
  module _ (sha256_hex : String → String) where
    unfoldable pub account_key : String → String
    account_key api_key = String.◌++◌ "tross:account:" (sha256_hex api_key)

    unfoldable pub authenticate : BillingStore → Delivery → String → S → S × Result BillingIdentity
    unfolding account_key identity_of
    authenticate store d api_key s =
        if starts_with api_key "tross_sk_"
        then connected store s (
            query d s
              (
                s,
                (
                  hget_text (account_key api_key) "email" s,
                  hget_int (account_key api_key) "enabled" s,
                ),
              )
              (λ s' (email, flag). (s', identity_of (account_key api_key) email flag)))
        else (s, err api_key_invalid)

    -- The atomic pipeline for one seed account.
    unfoldable pub seed_account : SeedAccount → S → S
    unfolding account_key
    seed_account a s = hsetnx_int (account_key a.api_key) "enabled" (pos 1) (
        hsetnx_int (account_key a.api_key) "balance_cents" a.initial_credit_cents
          (hsetnx_text (account_key a.api_key) "email" a.email s))

    -- The loop of `seed_from_file` over the accounts of the file; `none` is the error of an account
    -- that is refused, with the accounts before it already stored.
    unfoldable pub seed_accounts : List SeedAccount → S → S × Option ℕ
    unfolding seed_account
    seed_accounts [] s = (s, some 0)
    seed_accounts (a ∷ accounts) s =
        if not (starts_with a.api_key "tross_sk_") || ltb_ℤ a.initial_credit_cents (pos 0)
        then (s, none)
        else (let (s', n) = seed_accounts accounts (seed_account a s) in
            (s', elim n [ none ↦ none | some k ↦ some (k + 1) ]))
