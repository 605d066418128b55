-- ===== src/Dca/Swaps.antt =====
-- contracts/dca/src/helpers/vault.rs, with `price_threshold_exceeded` and
-- `get_expected_execution_completed_date` of types/vault.rs: how much of a bounty is swapped, and
-- what the standard strategy would have swapped.
pub mod Amount
use bounties.Prelude.{
  ℕ, ◌+◌, ◌-◌, ◌*◌, ◌/◌, String, Bool, true, false, Option, none, some, List, [], ◌∷◌, min, max,
  ltb, leb, ◌==◌, if◌then◌else◌,
}
use bounties.Shared.Result.{
  ContractError, StdError, text, coin, panic, Result, ok, err, or_err, ◌>>=◌,
}
use bounties.Shared.Arith.{Arith, decimal_fractional}
use bounties.Shared.Coin.{Coin, or_zero, add_to}
use bounties.Shared.Chain.{Addr, Env, Attribute}
use bounties.Dca.Types.{
  Bounty, SwapAdjustmentStrategy, risk_weighted_average, weighted_scale,
  PerformanceAssessmentStrategy, compare_to_standard_dca, get_swap_denom,
  simulated_bounty_execution_completed, simulated_bounty_execution_skipped,
  price_threshold_exceeded, slippage_tolerance_exceeded,
}
use bounties.Dca.Store.{Store, get_config, update_bounty, create_event}
use bounties.Dca.Time.{Calendar, from_seconds, get_total_execution_duration}
use bounties.Dca.SwapAdjustments.{get_swap_adjustment}
use bounties.Dca.Exchange.{Exchange, abs_diff, get_slippage, get_price}
use bounties.Dca.Fees.{get_swap_fee_rate, get_automation_fee_rate, total_value}

-- In `Decimal256`: the factors are below 2^128, so that nothing overflows. A price of zero is a
-- panic.
unfoldable pub price_threshold_is_exceeded : Bounty → ℕ → Result Bool
price_threshold_is_exceeded b belief_price = elim b.minimum_receive_amount [
  | none ↦ ok false
  | some minimum_receive_amount ↦
      if belief_price == 0
      then err panic
      else ok (
          ltb (b.swap_amount * decimal_fractional * decimal_fractional / belief_price)
            (minimum_receive_amount * decimal_fractional))
]

-- `checked_add(…).unwrap_or_else(|_| Decimal::one())`
abbrev pub or_one : Option ℕ → ℕ
or_one none = decimal_fractional
or_one (some n) = n

module _ ⦃m : Arith⦄ where
  unfoldable pub scaled_factor : ℕ → ℕ → ℕ → Bool → ℕ
  scaled_factor base_price belief_price scaled_price_delta increase_only =
      if ltb base_price belief_price
      then (if increase_only
          then decimal_fractional
          else or_zero (m.sub decimal_fractional scaled_price_delta))
      else or_one (m.add decimal_fractional scaled_price_delta)

  -- The factor of a weighted scale at a price.
  unfoldable pub weighted_factor : ℕ → ℕ → ℕ → Bool → ℕ → Result ℕ
  weighted_factor swap_amount base_receive_amount multiplier increase_only belief_price = do
    base_price ← or_err (m.from_ratio swap_amount base_receive_amount) panic
    price_delta ← or_err (m.from_ratio (abs_diff base_price belief_price) base_price) panic
    scaled ← or_err (m.multiply_ratio price_delta multiplier decimal_fractional) panic
    ok (scaled_factor base_price belief_price scaled increase_only)

  module _ (x : Exchange) (hash : SwapAdjustmentStrategy → ℕ) where
    unfoldable pub swap_factor : Store → Env → Bounty → Option SwapAdjustmentStrategy → Result ℕ
    swap_factor s env b none = ok decimal_fractional
    swap_factor s env b (some (weighted_scale base_receive_amount multiplier increase_only)) = do
      config ← get_config s
      belief_price ←
          x.get_twap_to_now config.exchange_contract_address (get_swap_denom b) b.target_denom
            config.twap_period b.route
      weighted_factor b.swap_amount base_receive_amount multiplier increase_only belief_price
    swap_factor s env b (some (risk_weighted_average model_id position_type)) =
        ok (get_swap_adjustment hash s (risk_weighted_average model_id position_type) env.time)

    unfoldable pub get_swap_amount : Store → Env → Bounty → Result Coin
    unfolding swap_factor
    get_swap_amount s env b = do
      swap_adjustment ← swap_factor s env b b.swap_adjustment_strategy
      adjusted_amount ←
          or_err (m.multiply_ratio b.swap_amount swap_adjustment decimal_fractional) panic
      ok (record { amount = min adjusted_amount b.balance.amount; denom = get_swap_denom b })

  unfoldable pub get_performance_factor : Bounty → ℕ → Result ℕ
  get_performance_factor b current_price = elim b.performance_assessment_strategy [
    | none ↦
        err (ContractError.std (StdError.generic_err "performance assessment strategy not set" []))
    | some (compare_to_standard_dca swapped received) ↦ do
      vault_total_value ←
          total_value b.deposited_amount.amount b.swapped_amount.amount b.received_amount.amount
            current_price
      standard_dca_vault_total_value ←
          total_value b.deposited_amount.amount swapped.amount received.amount current_price
      or_err (m.from_ratio vault_total_value standard_dca_vault_total_value) panic
  ]

  -- `max(deposited - swapped, balance)` of a bounty that is compared, and its balance otherwise
  unfoldable pub remaining_balance : Bounty → Result ℕ
  remaining_balance b = elim b.performance_assessment_strategy [
    | none ↦ ok b.balance.amount
    | some (compare_to_standard_dca swapped received) ↦ do
      left ← or_err (m.sub b.deposited_amount.amount swapped.amount) panic
      ok (max left b.balance.amount)
  ]

  unfoldable pub get_expected_execution_completed_date : Calendar → Bounty → ℕ → Result ℕ
  get_expected_execution_completed_date cal b current_time = do
    balance ← remaining_balance b
    if b.swap_amount == 0 then err panic else (do
      duration ←
          or_err
            (get_total_execution_duration cal current_time (balance / b.swap_amount)
              b.time_interval)
            panic
      or_err (from_seconds (current_time + duration)) panic)
