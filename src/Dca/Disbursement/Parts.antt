-- ===== src/Dca/Disbursement/Parts.antt =====
-- The parts that contracts/dca/src/helpers/disbursement.rs sends add up to the amount, but for what
-- rounding leaves, and each message of the cache pays what the cache says.
use bounties.Prelude.{
  ℕ, ◌+◌, ◌*◌, ◌/◌, ◌<◌, ◌≤◌, ◌≡◌, ap, Option, none, some, List, [], ◌∷◌, arith, ltb, Bool-cases,
  Option-cases, inl, inr, length, sum_of,
}
use bounties.Shared.Result.{Result, ok, err, >>=-eq-ok}
use bounties.Shared.Arith.{Arith, uint128_limit}
use bounties.Shared.Coin.{Coin}
use bounties.Shared.Chain.{Api, CosmosMsg, SubMsg, reply_always}
use bounties.Shared.Cw20.Laws.{payee, paid, into_bank_msg_pays, into_execute_msg_pays}
use bounties.Dca.Types.{Destination, PostExecutionActionCacheEntry}
use bounties.Dca.Disbursement.{
  checked_mul, expect, destination_msg, entry_for, after_failed_automation_reply_id,
}

-- The share of an amount by an allocation, rounded down.
abbrev pub share : ℕ → ℕ → ℕ
share n a = n * a / 1000000000000000000

pub share_bounds :
    (n a : ℕ)
    → (1000000000000000000 * share n a ≤ n * a)
      × (n * a < 1000000000000000000 * share n a + 1000000000000000000)
share_bounds n a = (omega arith, omega arith)

module _ {A : Type 0} (allocation : A → ℕ) where
  pub shares_le :
      (n : ℕ) (xs : List A)
      → 1000000000000000000 * sum_of (λ x. share n (allocation x)) xs ≤ n * sum_of allocation xs
  shares_le n [] = omega arith
  shares_le n (x ∷ xs) = omega (arith, shares_le n xs, share_bounds n (allocation x))

  pub shares_gt :
      (n : ℕ) (xs : List A)
      → n * sum_of allocation xs
        ≤ 1000000000000000000 * sum_of (λ x. share n (allocation x)) xs
          + 999999999999999999 * length xs
  shares_gt n [] = omega arith
  shares_gt n (x ∷ xs) = omega (arith, shares_gt n xs, share_bounds n (allocation x))

  -- Of allocations that add up to one, the shares lose less than one unit each.
  pub shares_of_one :
      (n : ℕ) (xs : List A)
      → sum_of allocation xs ≡ 1000000000000000000
      → (sum_of (λ x. share n (allocation x)) xs ≤ n)
        × (n ≤ sum_of (λ x. share n (allocation x)) xs + length xs)
  shares_of_one n xs one =
      let below : n * sum_of allocation xs ≡ n * 1000000000000000000 = ap (λ (t : ℕ). n * t) one in
      (omega (arith, shares_le n xs), omega (arith, shares_gt n xs))

  pub shares_le_one :
      (n : ℕ) (xs : List A)
      → sum_of allocation xs ≤ 1000000000000000000
      → sum_of (λ x. share n (allocation x)) xs ≤ n
  shares_le_one n xs one =
      let below : n * sum_of allocation xs ≤ n * 1000000000000000000 = grind arith in
      omega (arith, shares_le n xs)

abbrev pub amounts : List Coin → ℕ
amounts = sum_of (λ (c : Coin). c.amount)

abbrev pub entry_amount : PostExecutionActionCacheEntry → ℕ
entry_amount e = amounts e.funds

-- The money that leaves with a message.
abbrev pub msg_amount : SubMsg → ℕ
msg_amount s = amounts (paid s.msg)

abbrev pub option_amount : Option PostExecutionActionCacheEntry → ℕ
option_amount none = 0
option_amount (some e) = entry_amount e

abbrev pub PaysFunds : PostExecutionActionCacheEntry → Type 0
PaysFunds e = paid e.msg.msg ≡ e.funds

pub expect-eq-ok : {A : Type 0} (r : Result A) (a : A) → expect r ≡ ok a → r ≡ ok a
unfolding expect
expect-eq-ok (ok b) a h = h
expect-eq-ok (err e) a h = cc

module _ (api : Api) where
  pub destination_msg_pays :
      (d : Destination) (c : Coin) (msg : CosmosMsg)
      → destination_msg api d c ≡ ok msg
      → (payee msg ≡ d.address) × (paid msg ≡ c ∷ [])
  unfolding destination_msg expect
  destination_msg_pays d c msg h = elim (Option-cases d.msg) [
    | inl plain ↦ ground (arith, into_bank_msg_pays api d.address c msg)
    | inr (body, call) ↦ ground (arith, into_execute_msg_pays api d.address body c msg)
  ]

  pub entry_for_lem :
      (d : Destination) (c : Coin) (o : Option PostExecutionActionCacheEntry)
      → entry_for api d c ≡ ok o
      → (option_amount o ≡ c.amount)
        × ((e : PostExecutionActionCacheEntry) → o ≡ some e → PaysFunds e)
  unfolding entry_for
  entry_for_lem d c o h = elim (Bool-cases (ltb 0 c.amount)) [
    | inl sent ↦
        let (msg, e, made) =
          >>=-eq-ok (destination_msg api d c)
            (λ msg. ok (
              some (record {
                msg = reply_always msg after_failed_automation_reply_id;
                funds = c ∷ [];
              })))
            (rw sent at h) in
        let pays = (destination_msg_pays d c msg e).1 in entry_of o msg pays made
    | inr nothing ↦ nothing_of o (ground arith) (ground arith)
  ]
    where
      entry_of :
          (p : Option PostExecutionActionCacheEntry) (msg : CosmosMsg)
          → paid msg ≡ c ∷ []
          → ok (
              some (record {
                msg = reply_always msg after_failed_automation_reply_id;
                funds = c ∷ [];
              }))
            ≡ ok p
          → (option_amount p ≡ c.amount)
            × ((e : PostExecutionActionCacheEntry) → p ≡ some e → PaysFunds e)
      entry_of none msg pays q = cc
      entry_of (some x) msg pays q = (ground arith, λ e r. ground arith)

      nothing_of :
          (p : Option PostExecutionActionCacheEntry)
          → p ≡ none
          → c.amount ≡ 0
          → (option_amount p ≡ c.amount)
            × ((e : PostExecutionActionCacheEntry) → p ≡ some e → PaysFunds e)
      nothing_of none q z = (ground arith, λ e r. cc)
      nothing_of (some x) q z = cc

module _ ⦃m : Arith⦄ where
  pub checked_mul_lem :
      (a b r : ℕ) → checked_mul a b ≡ some r → (r ≡ share a b) × (r < uint128_limit)
  unfolding checked_mul
  checked_mul_lem a b r h =
      ground (arith, m.multiply_ratio_lem a b 1000000000000000000 (omega arith))
