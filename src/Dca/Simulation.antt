-- ===== src/Dca/Simulation.antt =====
-- `simulate_standard_dca_execution` of contracts/dca/src/helpers/vault.rs: what the standard strategy
-- would have swapped and received is kept beside the accounts of a bounty.
pub mod Accounts
use bounties.Prelude.{
  ℕ, ◌-◌, String, Bool, true, false, Option, none, some, List, [], ◌∷◌, ◌++◌, min, ltb, leb, ◌==◌,
  if◌then◌else◌,
}
use bounties.Shared.Result.{text, coin, panic, Result, ok, err, or_err, ◌>>=◌}
use bounties.Shared.Arith.{Arith, decimal_fractional}
use bounties.Shared.Coin.{Coin, add_to}
use bounties.Shared.Chain.{Env, Attribute}
use bounties.Dca.Types.{
  Bounty, PerformanceAssessmentStrategy, compare_to_standard_dca, get_swap_denom,
  ExecutionSkippedReason, simulated_bounty_execution_completed, simulated_bounty_execution_skipped,
  price_threshold_exceeded, slippage_tolerance_exceeded,
}
use bounties.Dca.Store.{Store, get_config, update_bounty, create_event}
use bounties.Dca.Exchange.{Exchange, get_slippage, get_price}
use bounties.Dca.Swaps.{price_threshold_is_exceeded}
use bounties.Dca.Fees.{get_swap_fee_rate, get_automation_fee_rate}

-- The bounty, what is added to the attributes, and the store.
abbrev pub Simulated : Type 0
Simulated = Bounty × List Attribute × Store

unfoldable pub standard_swap_amount : Bounty → Coin → ℕ
standard_swap_amount b swapped =
    min
      (if leb b.deposited_amount.amount swapped.amount
        then 0
        else b.deposited_amount.amount - swapped.amount)
      b.swap_amount

unfoldable pub skip_simulation : Store → Env → Bounty → ExecutionSkippedReason → String → Simulated
skip_simulation s env b reason attribute = (
  b,
  ("simulated_execution_skipped", text attribute) ∷ [],
  create_event s env b.id (simulated_bounty_execution_skipped reason),
)

abbrev pub assessed : Bounty → Coin → Coin → Bounty
assessed b swapped received = record b {
  performance_assessment_strategy = some (compare_to_standard_dca swapped received);
}

-- The new accounts of the strategy, and the event of what was sent, received and paid as a fee.
unfoldable pub recorded : Env → Store → Bounty → Coin → Coin → ℕ → ℕ → ℕ → Simulated
recorded env s b swapped received sent before_fee fee_amount = (
  assessed b swapped received,
  ("simulated_swapped_amount", coin sent (get_swap_denom b))
      ∷ ("simulated_received_amount", coin before_fee b.target_denom)
      ∷ ("simulated_total_fee", coin fee_amount b.target_denom)
      ∷ [],
  create_event (update_bounty s (assessed b swapped received)) env b.id (
      simulated_bounty_execution_completed (record { amount = sent; denom = get_swap_denom b })
        (record { amount = before_fee; denom = b.target_denom })
        (record { amount = fee_amount; denom = b.target_denom })),
)

module _ ⦃m : Arith⦄ where
  -- `swap_fee_rate + automation_fee_rate`
  unfoldable pub simulated_fee_rate : Store → Bounty → Result ℕ
  simulated_fee_rate s b = do
    swap_fee_rate ← get_swap_fee_rate s b.swap_adjustment_strategy
    automation_fee_rate ← get_automation_fee_rate s b
    or_err (m.add swap_fee_rate automation_fee_rate) panic

  -- What is received before the fee, the fee, and what is received after it.
  unfoldable pub simulated_amounts : ℕ → ℕ → ℕ → Result (ℕ × ℕ × ℕ)
  simulated_amounts swap_amount actual_price fee_rate = do
    inverse ← or_err (m.from_ratio decimal_fractional actual_price) panic
    before_fee ← or_err (m.multiply_ratio swap_amount inverse decimal_fractional) panic
    fee_amount ← or_err (m.multiply_ratio before_fee fee_rate decimal_fractional) panic
    after_fee ← or_err (m.sub before_fee fee_amount) panic
    ok (before_fee, fee_amount, after_fee)

module _ ⦃m : Arith⦄ (x : Exchange) (env : Env) where
  unfoldable pub complete_simulation : Store → Bounty → Coin → Coin → ℕ → ℕ → Result Simulated
  complete_simulation s b swapped received swap_amount actual_price = do
    fee_rate ← simulated_fee_rate s b
    amounts ← simulated_amounts swap_amount actual_price fee_rate
    swapped_amount ← add_to swapped swap_amount
    received_amount ← add_to received amounts.2
    ok (recorded env s b swapped_amount received_amount swap_amount amounts.0 amounts.1)

  unfoldable pub simulate_swap : Store → Bounty → Coin → Coin → ℕ → ℕ → Result Simulated
  simulate_swap s b swapped received swap_amount belief_price = do
    config ← get_config s
    let swap : Coin = record { amount = swap_amount; denom = get_swap_denom b }
    actual_price ← get_price x s config.exchange_contract_address swap b.target_denom b.route
    exceeded ← price_threshold_is_exceeded b belief_price
    if exceeded
        then ok (
            skip_simulation s env b (price_threshold_exceeded belief_price)
              "price_threshold_exceeded")
        else (do
          slippage ←
              get_slippage x config.exchange_contract_address swap b.target_denom belief_price
                b.route
          if ltb b.slippage_tolerance slippage
              then ok (
                  skip_simulation s env b slippage_tolerance_exceeded "slippage_tolerance_exceeded")
              else complete_simulation s b swapped received swap_amount actual_price)

  unfoldable pub simulate_with :
      Store → Bounty → ℕ → Option PerformanceAssessmentStrategy → Result Simulated
  simulate_with s b belief_price none = ok (b, [], s)
  simulate_with s b belief_price (some (compare_to_standard_dca swapped received)) =
      if standard_swap_amount b swapped == 0
      then ok (b, [], s)
      else simulate_swap s b swapped received (standard_swap_amount b swapped) belief_price

  unfoldable pub simulate_standard_dca_execution : Store → Bounty → ℕ → Result Simulated
  unfolding simulate_with
  simulate_standard_dca_execution s b belief_price =
      simulate_with s b belief_price b.performance_assessment_strategy
