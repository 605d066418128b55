-- ===== src/Dca/Exchange.antt =====
-- The exchange contract as the DCA contract asks it, and contracts/dca/src/helpers/price.rs, which
-- makes a slippage and a price of its answers.
pub mod Slippage
use bounties.Prelude.{
  ℕ, ◌-◌, String, Bool, true, false, Option, none, some, ltb, leb, ◌==◌, if◌then◌else◌,
}
use bounties.Shared.Result.{ContractError, StdError, panic, Result, ok, err, or_err, ◌>>=◌}
use bounties.Shared.Arith.{Arith}
use bounties.Shared.Coin.{Coin}
use bounties.Shared.Chain.{Addr, Binary}
use bounties.Dca.Store.{Store, get_config}

-- The queries of packages/exchange/src/msg.rs, each with the address of the contract. No answer
-- is a panic: that is the caller's.
pub record Exchange : Type 0 where
  -- the two denominations, the period and the route
  pub get_twap_to_now : Addr → String → String → ℕ → Option Binary → Result ℕ
  pub get_expected_receive_amount : Addr → Coin → String → Option Binary → Result Coin
  -- the `remaining_offer_amount` of the order with an index and the pair's denominations
  pub get_order : Addr → ℕ → String × String → Result Coin

abbrev pub abs_diff : ℕ → ℕ → ℕ
abs_diff a b = if leb b a then a - b else b - a

module _ ⦃m : Arith⦄ where
  -- The slippage of an amount received against a believed price.
  unfoldable pub slippage_of : ℕ → ℕ → ℕ → Result ℕ
  slippage_of swap_amount received belief_price = do
    expected_price ← or_err (m.from_ratio swap_amount received) panic
    if leb expected_price belief_price
        then ok 0
        else or_err (m.from_ratio (abs_diff expected_price belief_price) belief_price) panic

  -- A query that fails counts as no slippage.
  unfoldable pub slippage_or_zero : ℕ → Result Coin → ℕ → Result ℕ
  slippage_or_zero swap_amount (err _) belief_price = ok 0
  slippage_or_zero swap_amount (ok received) belief_price =
      slippage_of swap_amount received.amount belief_price

module _ ⦃m : Arith⦄ (x : Exchange) where
  unfoldable pub get_slippage : Addr → Coin → String → ℕ → Option Binary → Result ℕ
  unfolding slippage_or_zero
  get_slippage exchange swap_amount target_denom belief_price route =
      if swap_amount.amount == 0
      then ok 0
      else slippage_or_zero swap_amount.amount
          (x.get_expected_receive_amount exchange swap_amount target_denom route) belief_price

  price_of : Store → Coin → String → Option Binary → Result Coin → Result ℕ
  price_of s swap_amount target_denom route (err _) = do
    config ← get_config s
    x.get_twap_to_now config.exchange_contract_address swap_amount.denom target_denom
        config.twap_period route
  price_of s swap_amount target_denom route (ok received) =
      if received.amount == 0
      then ok 0
      else or_err (m.from_ratio swap_amount.amount received.amount) panic

  unfoldable pub get_price : Store → Addr → Coin → String → Option Binary → Result ℕ
  unfolding price_of
  get_price s exchange swap_amount target_denom route =
      price_of s swap_amount target_denom route
        (x.get_expected_receive_amount exchange swap_amount target_denom route)
