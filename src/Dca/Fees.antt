-- ===== src/Dca/Fees.antt =====
-- contracts/dca/src/helpers/fees.rs.
pub mod Totals
pub mod Performance
use bounties.Prelude.{
  ℕ, String, Bool, true, false, Option, none, some, List, [], ◌∷◌, ◌++◌, ◌&&◌, min, ltb, str_eq,
  if◌then◌else◌,
}
use bounties.Shared.Result.{panic, Result, ok, err, or_err, ◌>>=◌}
use bounties.Shared.Arith.{Arith, decimal_fractional}
use bounties.Shared.Coin.{Coin, or_zero, overflow}
use bounties.Shared.Chain.{Addr, Api, Env, CosmosMsg, fund_community_pool, SubMsg, sub_msg}
use bounties.Shared.Cw20.{into_bank_msg}
use bounties.Dca.Types.{
  Bounty, Destination, FeeCollector, Config, SwapAdjustmentStrategy, PerformanceAssessmentStrategy,
  risk_weighted_average, weighted_scale, compare_to_standard_dca, performance_fee_rate,
}
use bounties.Dca.Store.{Store, get_config}
use bounties.Dca.Disbursement.{checked_mul, expect}

unfoldable pub is_community_pool : FeeCollector → Bool
is_community_pool c = str_eq c.address "community_pool"

-- `find(…).map_or(Decimal::zero(), |c| c.allocation)`
unfoldable pub community_pool_allocation : List FeeCollector → ℕ
community_pool_allocation [] = 0
community_pool_allocation (c ∷ rest) =
    if is_community_pool c then c.allocation else community_pool_allocation rest

unfoldable pub get_swap_fee_rate : Store → Option SwapAdjustmentStrategy → Result ℕ
get_swap_fee_rate s strategy = do
  config ← get_config s
  ok (elim strategy [
    | none ↦ config.default_swap_fee_percent
    | some (weighted_scale _ _ _) ↦ config.weighted_scale_swap_fee_percent
    | some (risk_weighted_average _ _) ↦ 0
  ])

module _ (api : Api) (env : Env) (skip : Bool) where
  -- What is sent to a collector for its share of a fee.
  unfoldable pub message_for : FeeCollector → Coin → Result (List SubMsg)
  message_for c fee_allocation =
      if ltb 0 fee_allocation.amount
      then if is_community_pool c
        then ok (
            if skip
            then []
            else sub_msg (fund_community_pool (fee_allocation ∷ []) env.contract) ∷ [])
        else (do
          msg ← expect (into_bank_msg api c.address (fee_allocation ∷ []))
          ok (sub_msg msg ∷ []))
      else ok []

abbrev pub prepend_collector : Option FeeCollector → List FeeCollector → List FeeCollector
prepend_collector none l = l
prepend_collector (some c) l = c ∷ l

module _ ⦃m : Arith⦄ where
  -- The collector as it is paid: without the pool, the shares of the others are scaled up.
  unfoldable pub effective_collector :
      Bool → List FeeCollector → FeeCollector → Result (Option FeeCollector)
  effective_collector skip collectors c =
      if skip && is_community_pool c
      then ok none
      else if skip
      then (do
        rest ← or_err (m.sub decimal_fractional (community_pool_allocation collectors)) panic
        allocation ← or_err (m.from_ratio c.allocation rest) panic
        ok (some (record { address = c.address; allocation = allocation })))
      else ok (some c)

  unfoldable pub effective_collectors :
      Bool → List FeeCollector → List FeeCollector → Result (List FeeCollector)
  effective_collectors skip all [] = ok []
  effective_collectors skip all (c ∷ rest) = effective_collector skip all c >>= λ first.
      effective_collectors skip all rest >>= λ others. ok (prepend_collector first others)

  module _ (api : Api) (env : Env) (denom : String) (skip : Bool) where
    -- The message that pays one collector its share of one fee.
    unfoldable pub fee_message : FeeCollector → ℕ → Result (List SubMsg)
    fee_message c fee = do
      amount ← or_err (checked_mul fee c.allocation) panic
      message_for api env skip c (record { amount = amount; denom = denom })

    unfoldable pub collector_messages : FeeCollector → List ℕ → Result (List SubMsg)
    collector_messages c [] = ok []
    collector_messages c (fee ∷ fees) =
        fee_message c fee >>= λ first. collector_messages c fees >>= λ others. ok (first ++ others)

    unfoldable pub all_fee_messages : List FeeCollector → List ℕ → Result (List SubMsg)
    all_fee_messages [] fees = ok []
    all_fee_messages (c ∷ rest) fees = collector_messages c fees >>= λ first.
        all_fee_messages rest fees >>= λ others. ok (first ++ others)

  unfoldable pub get_fee_messages :
      Api → Store → Env → List ℕ → String → Bool → Result (List SubMsg)
  get_fee_messages api s env fee_amounts denom skip_community_pool = do
    config ← get_config s
    collectors ←
        effective_collectors skip_community_pool config.fee_collectors config.fee_collectors
    all_fee_messages api env denom skip_community_pool collectors fee_amounts

  -- The allocations of the destinations that are called with a message.
  unfoldable pub automation_allocation : ℕ → List Destination → Result ℕ
  automation_allocation acc [] = ok acc
  automation_allocation acc (d ∷ rest) =
      elim d.msg [ none ↦ ok acc | some _ ↦ or_err (m.add acc d.allocation) panic ] >>= λ total.
      automation_allocation total rest

  unfoldable pub get_automation_fee_rate : Store → Bounty → Result ℕ
  get_automation_fee_rate s bounty = do
    config ← get_config s
    allocation ← automation_allocation 0 bounty.destinations
    or_err (m.multiply_ratio config.automation_fee_percent allocation decimal_fractional) overflow

  -- `deposited - swapped + received * price`, with the panics of its operators
  unfoldable pub total_value : ℕ → ℕ → ℕ → ℕ → Result ℕ
  total_value deposited swapped received price = do
    unswapped ← or_err (m.sub deposited swapped) panic
    value ← or_err (m.multiply_ratio received price decimal_fractional) panic
    or_err (m.add unswapped value) panic

  unfoldable pub get_performance_fee : Bounty → ℕ → Result Coin
  get_performance_fee bounty current_price = elim bounty.performance_assessment_strategy [
    | none ↦ ok (record { amount = 0; denom = bounty.target_denom })
    | some (compare_to_standard_dca swapped received) ↦ do
      vault_total_value ←
          total_value bounty.deposited_amount.amount bounty.swapped_amount.amount
            bounty.received_amount.amount current_price
      standard_dca_total_value ←
          total_value bounty.deposited_amount.amount swapped.amount received.amount current_price
      inverse ← or_err (m.from_ratio decimal_fractional current_price) panic
      added_value ←
          or_err
            (m.multiply_ratio (or_zero (m.sub vault_total_value standard_dca_total_value)) inverse
              decimal_fractional)
            panic
      fee ←
          or_err
            (m.multiply_ratio added_value
              (performance_fee_rate (compare_to_standard_dca swapped received)) decimal_fractional)
            panic
      ok (record { amount = min bounty.escrowed_amount.amount fee; denom = bounty.target_denom })
  ]
