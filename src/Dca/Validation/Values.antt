-- ===== src/Dca/Validation/Values.antt =====
-- The checks of contracts/dca/src/helpers/validation.rs on the values of a message.
use Prim.Native.String.{len}
use bounties.Prelude.{
  ℕ, String, Option, none, some, List, [], ◌∷◌, not, ◌||◌, any, length, ltb, leb, ◌==◌,
}
use bounties.Shared.Result.{number, panic, Check, Result, ok, custom_error, fail_if, or_err, ◌>>=◌}
use bounties.Shared.Arith.{Arith, percent}
use bounties.Shared.Coin.{Coin}
use bounties.Dca.Types.{Destination, FeeCollector, TimeInterval, custom}

unfoldable pub assert_exactly_one_asset : List Coin → Check
assert_exactly_one_asset funds =
    fail_if ((length funds == 0) || ltb 1 (length funds))
      (custom_error "received {} denoms but required exactly 1" (number (length funds) ∷ []))

unfoldable pub assert_fee_level_is_valid : ℕ → Check
assert_fee_level_is_valid swap_fee_percent =
    fail_if (ltb (percent 5) swap_fee_percent)
      (custom_error "fee level cannot be larger than 5%" [])

-- `assert_risk_weighted_average_escrow_level_is_no_greater_than_100_percent`
unfoldable pub assert_escrow_level_is_no_greater_than_100_percent : ℕ → Check
assert_escrow_level_is_no_greater_than_100_percent level =
    fail_if (ltb (percent 100) level)
      (custom_error "risk_weighted_average_escrow_level cannot be greater than 100%" [])

unfoldable pub assert_twap_period_is_valid : ℕ → Check
assert_twap_period_is_valid twap_period =
    fail_if (not (leb twap_period 3600)) (custom_error "twap_period must be between 30 and 3600" [])

unfoldable pub assert_slippage_tolerance_is_less_than_or_equal_to_one : ℕ → Check
assert_slippage_tolerance_is_less_than_or_equal_to_one slippage_tolerance =
    fail_if (ltb (percent 100) slippage_tolerance)
      (custom_error "slippage tolerance must be less than or equal to 1" [])

unfoldable pub assert_no_more_than_10_fee_collectors : List FeeCollector → Check
assert_no_more_than_10_fee_collectors fee_collectors =
    fail_if (ltb 10 (length fee_collectors))
      (custom_error "no more than 10 fee collectors are allowed" [])

unfoldable pub assert_page_limit_is_valid : Option ℕ → Check
assert_page_limit_is_valid none = ok tt
assert_page_limit_is_valid (some limit) =
    fail_if (ltb 1000 limit) (custom_error "limit cannot be greater than 1000." [])

unfoldable pub assert_label_is_no_longer_than_100_characters : String → Check
assert_label_is_no_longer_than_100_characters label =
    fail_if (ltb 100 (len label))
      (custom_error "Vault label cannot be longer than 100 characters" [])

unfoldable pub assert_time_interval_is_valid : TimeInterval → Check
assert_time_interval_is_valid (custom seconds) =
    fail_if (ltb seconds 60) (custom_error "custom time interval must be at least 60 seconds" [])
assert_time_interval_is_valid _ = ok tt

unfoldable pub assert_destinations_limit_is_not_breached : List Destination → Check
assert_destinations_limit_is_not_breached destinations =
    fail_if (ltb 10 (length destinations))
      (custom_error "no more than 10 destinations can be provided" [])

unfoldable pub assert_no_destination_allocations_are_zero : List Destination → Check
assert_no_destination_allocations_are_zero destinations =
    fail_if (any (λ d. d.allocation == 0) destinations)
      (custom_error "all destination allocations must be greater than 0" [])

unfoldable pub assert_weighted_scale_multiplier_is_no_more_than_10 : ℕ → Check
assert_weighted_scale_multiplier_is_no_more_than_10 multiplier =
    fail_if (ltb (percent 1000) multiplier)
      (custom_error "Cannot set weighted scale multiplier to more than 10" [])

unfoldable pub assert_swap_amount_is_greater_than_50000 : ℕ → Check
assert_swap_amount_is_greater_than_50000 swap_amount =
    fail_if (leb swap_amount 50000) (custom_error "swap amount must be greater than 50000" [])

module _ ⦃m : Arith⦄ where
  -- `fold(Decimal::zero(), |acc, x| acc.checked_add(x.allocation).unwrap())`
  unfoldable pub add_up : {A : Type 0} → (A → ℕ) → ℕ → List A → Result ℕ
  add_up allocation acc [] = ok acc
  add_up allocation acc (x ∷ xs) =
      or_err (m.add acc (allocation x)) panic >>= λ total. add_up allocation total xs

  unfoldable pub assert_fee_collector_allocations_add_up_to_one : List FeeCollector → Check
  assert_fee_collector_allocations_add_up_to_one fee_collectors = do
    total ← add_up (λ (c : FeeCollector). c.allocation) 0 fee_collectors
    fail_if (not (total == percent 100))
        (custom_error "fee collector allocations must add up to 1" [])

  unfoldable pub assert_destination_allocations_add_up_to_one : List Destination → Check
  assert_destination_allocations_add_up_to_one destinations = do
    total ← add_up (λ (d : Destination). d.allocation) 0 destinations
    fail_if (not (total == percent 100))
        (custom_error "destination allocations must add up to 1" [])
