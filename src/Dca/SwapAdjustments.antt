-- ===== src/Dca/SwapAdjustments.antt =====
-- contracts/dca/src/state/swap_adjustments.rs and the bounds of types/swap_adjustment_strategy.rs:
-- the factors that the admin sets for a strategy, each for a time. `hash` of a strategy is a
-- parameter.
use bounties.Prelude.{ℕ, ◌+◌, ◌*◌, none, some, ltb, if◌then◌else◌}
use bounties.Shared.Arith.{decimal_fractional, percent}
use bounties.Shared.Storage.{may_load, save}
use bounties.Dca.Types.{SwapAdjustmentStrategy, risk_weighted_average, weighted_scale}
use bounties.Dca.Store.{Store}

-- In seconds.
unfoldable pub ttl : SwapAdjustmentStrategy → ℕ
ttl (risk_weighted_average _ _) = 60 * 60 * 25
ttl (weighted_scale _ _ _) = 0

-- `Decimal::MAX` has the largest `Uint128` as its atomics.
unfoldable pub max_adjustment : SwapAdjustmentStrategy → ℕ
max_adjustment (risk_weighted_average _ _) = percent 350
max_adjustment (weighted_scale _ _ _) = 340282366920938463463374607431768211455

unfoldable pub min_adjustment : SwapAdjustmentStrategy → ℕ
min_adjustment (risk_weighted_average _ _) = percent 20
min_adjustment (weighted_scale _ _ increase_only) = percent (if increase_only then 100 else 0)

module _ (hash : SwapAdjustmentStrategy → ℕ) where
  unfoldable pub update_swap_adjustment : Store → SwapAdjustmentStrategy → ℕ → ℕ → Store
  update_swap_adjustment s strategy value block_time = record s {
    swap_adjustments =
        save (hash strategy) (record { value = value; timestamp = block_time }) s.swap_adjustments;
  }

  -- A factor that was never set is one, and one that was set too long ago counts as one.
  unfoldable pub get_swap_adjustment : Store → SwapAdjustmentStrategy → ℕ → ℕ
  get_swap_adjustment s strategy block_time = elim (may_load (hash strategy) s.swap_adjustments) [
    | none ↦ decimal_fractional
    | some adjustment ↦
        if ltb block_time (adjustment.timestamp + ttl strategy)
        then adjustment.value
        else decimal_fractional
  ]
