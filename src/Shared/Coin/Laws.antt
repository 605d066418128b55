-- ===== src/Shared/Coin/Laws.antt =====
-- What the coin operations of packages/shared/src/coin.rs compute, on every branch.
use bounties.Prelude.{ℕ, ◌+◌, ◌-◌, ◌<◌, ◌≡◌, arith, ltb, str_eq, eq_iff, if◌then◌else◌}
use bounties.Shared.Result.{ok, err}
use bounties.Shared.Arith.{Arith, uint128_limit}
use bounties.Shared.Coin.{
  Coin, add, subtract, add_to, subtract_from, denoms_differ, overflow, or_zero,
}

module _ ⦃m : Arith⦄ where
  -- A saturating difference, whatever the operands.
  pub or_zero-sub : (a b : ℕ) → or_zero (m.sub a b) ≡ a - b
  or_zero-sub a b = ground (arith, m.sub_lem a b)

  pub amount-subtract_from : (c : Coin) (n : ℕ) → (subtract_from c n).amount ≡ c.amount - n
  unfolding subtract_from
  amount-subtract_from c n = or_zero-sub c.amount n

  -- Subtraction of coins of one denomination never fails, and stops at zero.
  pub subtract_lem :
      (a b : Coin)
      → a.denom ≡ b.denom
      → subtract a b ≡ ok (record { amount = a.amount - b.amount; denom = a.denom })
  unfolding subtract
  subtract_lem a b h = ground (arith, eq_iff a.denom b.denom, or_zero-sub a.amount b.amount)

  pub subtract_denom : (a b c : Coin) → subtract a b ≡ ok c → a.denom ≡ b.denom
  unfolding subtract
  subtract_denom a b c h = ground (arith, eq_iff a.denom b.denom)

  pub subtract_amount : (a b c : Coin) → subtract a b ≡ ok c → c.amount ≡ a.amount - b.amount
  unfolding subtract
  subtract_amount a b c h = ground (arith, eq_iff a.denom b.denom, or_zero-sub a.amount b.amount)

  pub add_to_amount :
      (c : Coin) (n : ℕ) (d : Coin)
      → add_to c n ≡ ok d
      → (d.amount ≡ c.amount + n) × (d.amount < uint128_limit) × (d.denom ≡ c.denom)
  unfolding add_to
  add_to_amount c n d h = ground (arith, m.add_lem c.amount n)

  -- When two coins are added, subtracting the second from the sum gives the first.
  pub subtract-add : (a b c : Coin) → add a b ≡ ok c → subtract c b ≡ ok a
  unfolding add subtract
  subtract-add a b c h = ground (
    arith,
    eq_iff a.denom b.denom,
    eq_iff c.denom b.denom,
    m.add_lem a.amount b.amount,
    m.sub_lem c.amount b.amount,
  )

  -- Addition succeeds exactly on one denomination and within 128 bits.
  pub add_lem :
      (a b : Coin)
      → add a b ≡ (
          if str_eq a.denom b.denom
          then if ltb (a.amount + b.amount) uint128_limit
            then ok (record { amount = a.amount + b.amount; denom = a.denom })
            else err overflow
          else err (denoms_differ "Cannot add coins of different denominations: {} and {}" a b))
  unfolding add
  add_lem a b = ground (arith, m.add_lem a.amount b.amount)
