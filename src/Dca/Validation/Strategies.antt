-- ===== src/Dca/Validation/Strategies.antt =====
-- The checks of contracts/dca/src/helpers/validation.rs on a bounty's route and on its strategies.
-- The formats of a strategy and of a decimal, and the list of the chain's validators, are parameters.
use bounties.Prelude.{ℕ, String, Bool, Option, none, some, [], ◌∷◌, ◌||◌, ltb}
use bounties.Shared.Result.{
  ContractError, text, decimal, Check, Result, ok, err, custom_error, fail_if, ◌>>=◌,
}
use bounties.Shared.Arith.{percent}
use bounties.Shared.Chain.{Binary}
use bounties.Dca.Types.{PositionType, SwapAdjustmentStrategy}
use bounties.Dca.Store.{Store, get_config}
use bounties.Dca.Exchange.{Exchange}
use bounties.Dca.SwapAdjustments.{min_adjustment, max_adjustment}

-- types/swap_adjustment_strategy.rs and types/performance_assessment_strategy.rs: what a message
-- says of a strategy. The only `BaseDenom` is left out.
pub data SwapAdjustmentStrategyParams : Type 0 where
  risk_weighted_average : PositionType → SwapAdjustmentStrategyParams
  weighted_scale : ℕ → ℕ → Bool → SwapAdjustmentStrategyParams

pub data PerformanceAssessmentStrategyParams : Type 0 where
  compare_to_standard_dca : PerformanceAssessmentStrategyParams

abbrev pub or_unsupported {ℓ} : {A : Type ℓ} → Result A → ContractError → Check
or_unsupported (ok _) e = ok tt
or_unsupported (err _) e = err e

unfoldable pub assert_route_exists_for_denoms :
    Exchange → Store → String → String → Option Binary → Check
assert_route_exists_for_denoms x s swap_denom target_denom route = do
  config ← get_config s
  or_unsupported
      (x.get_twap_to_now config.exchange_contract_address swap_denom target_denom config.twap_period
        route)
      (custom_error "swapping {} to {} not supported" (text swap_denom ∷ text target_denom ∷ []))

abbrev pub incompatible : ContractError
incompatible = custom_error "incompatible swap adjustment and performance assessment strategies" []

-- `assert_swap_adjustment_and_performance_assessment_strategies_are_compatible`
unfoldable pub assert_strategies_are_compatible :
    Option SwapAdjustmentStrategyParams → Option PerformanceAssessmentStrategyParams → Check
assert_strategies_are_compatible (some (SwapAdjustmentStrategyParams.risk_weighted_average _))
      (some _) =
    ok tt
assert_strategies_are_compatible (some (SwapAdjustmentStrategyParams.risk_weighted_average _))
      none =
    err incompatible
assert_strategies_are_compatible (some (SwapAdjustmentStrategyParams.weighted_scale _ _ _))
      (some _) =
    err incompatible
assert_strategies_are_compatible (some (SwapAdjustmentStrategyParams.weighted_scale _ _ _)) none =
    ok tt
assert_strategies_are_compatible none (some _) = err incompatible
assert_strategies_are_compatible none none = ok tt

unfoldable pub assert_swap_adjustment_strategy_params_are_valid :
    SwapAdjustmentStrategyParams → Check
assert_swap_adjustment_strategy_params_are_valid
      (SwapAdjustmentStrategyParams.weighted_scale _ multiplier _) =
    fail_if (ltb (percent 1000) multiplier)
      (custom_error "Cannot set weighted scale multiplier to more than 10" [])
assert_swap_adjustment_strategy_params_are_valid
      (SwapAdjustmentStrategyParams.risk_weighted_average _) =
    ok tt

unfoldable pub assert_swap_adjustment_value_is_valid :
    (SwapAdjustmentStrategy → String) → SwapAdjustmentStrategy → ℕ → Check
assert_swap_adjustment_value_is_valid debug strategy value =
    fail_if (ltb value (min_adjustment strategy) || ltb (max_adjustment strategy) value) (
      custom_error "swap adjustment value for strategy {:?} must be between {} and {}" (
        text (debug strategy)
        ∷ decimal (min_adjustment strategy)
        ∷ decimal (max_adjustment strategy)
        ∷ []))

-- `query_validator` finds a validator, or is an error.
unfoldable pub assert_validator_is_valid {ℓ} :
    {Validator : Type ℓ} → (String → Result Validator) → String → Check
assert_validator_is_valid query_validator validator_address =
    or_unsupported (query_validator validator_address)
      (custom_error "validator {} is invalid" (text validator_address ∷ []))

unfoldable pub assert_dca_plus_escrow_level_is_less_than_100_percent : ℕ → Check
assert_dca_plus_escrow_level_is_less_than_100_percent dca_plus_escrow_level =
    fail_if (ltb (percent 100) dca_plus_escrow_level)
      (custom_error "dca_plus_escrow_level cannot be greater than 100%" [])
