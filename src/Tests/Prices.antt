-- ===== src/Tests/Prices.antt =====
-- The size of a swap, its price and its slippage, on one bounty.
use bounties.Prelude.{[], arith, min, none, refl, true, ℕ, ◌*◌, ◌-◌, ◌/◌, ◌≡◌, ◌≤◌, ◌⊎◌}
use bounties.Shared.Arith.{exact}
use bounties.Shared.Chain.{Response}
use bounties.Shared.Coin.{Coin, add_to, one_from, subtract}
use bounties.Shared.Cw20.{cw20_token_address, into_bank_msg, into_execute_msg, query_balance}
use bounties.Shared.Result.{ContractError, err, is_ok, ok}
use bounties.Shared.Storage.{save}
use bounties.Dca.DisburseFunds.{
  coins_moved, disburse_funds_handler, disburse_swapped, distribute, finish, settle, split_received,
}
use bounties.Dca.Disbursement.{
  checked_mul, destination_entries, destination_entry, destination_msg, entry_for, expect,
  get_disbursement_messages,
}
use bounties.Dca.Exchange.{get_price, get_slippage, slippage_of, slippage_or_zero}
use bounties.Dca.Exchange.Slippage.{get_slippage_lem}
use bounties.Dca.Execute.{
  adjusted_minimum, assert_not_cancelled, choose_route, execute_or_finish, execute_started,
  execute_swap, execute_trigger_handler, order_filled, save_next_trigger, send_swap,
  should_execute_again, simulate_if_weighted, start, trigger_reached, within_slippage,
}
use bounties.Dca.Fees.{
  all_fee_messages, automation_allocation, collector_messages, effective_collector,
  effective_collectors, fee_message, get_automation_fee_rate, get_fee_messages, get_swap_fee_rate,
  is_community_pool, message_for,
}
use bounties.Dca.Simulation.{
  Simulated, complete_simulation, recorded, simulate_standard_dca_execution, simulate_swap,
  simulate_with, simulated_amounts, simulated_fee_rate, skip_simulation, standard_swap_amount,
}
use bounties.Dca.Simulation.Accounts.{IsSimulated, simulate_lem}
use bounties.Dca.Store.{
  Store, bounty_data, bounty_from, create_event, delete_trigger, get_bounty, get_config,
  get_trigger, next_counter, update_bounty,
}
use bounties.Dca.Swaps.{get_swap_amount, price_threshold_is_exceeded, swap_factor}
use bounties.Dca.Swaps.Amount.{get_swap_amount_lem}
use bounties.Dca.Time.{
  add_elapsed, add_increments, get_duration, get_next_time, get_next_target_time,
}
use bounties.Dca.Types.{
  get_swap_denom, is_active, is_cancelled, is_inactive, is_scheduled, should_continue,
  should_not_continue,
}
use bounties.Dca.Validation.Access.{assert_target_time_is_in_past}
use bounties.Tests.Fixtures.{api, balances, bounty, coins, config, env, from_ok, from_ok_lem, store}
use bounties.Tests.Lifecycle.{hash, market, to_json_binary}

simulated_ok :
    is_ok (simulate_standard_dca_execution market env store bounty 500000000000000000) ≡ true
unfolding execute_trigger_handler get_bounty bounty_from get_trigger assert_not_cancelled
    is_cancelled trigger_reached order_filled assert_target_time_is_in_past start delete_trigger
    is_scheduled execute_started get_swap_amount swap_factor get_swap_denom choose_route
    simulate_if_weighted execute_or_finish should_execute_again is_active save_next_trigger
    get_next_target_time get_next_time get_duration add_elapsed add_increments execute_swap
    is_inactive price_threshold_is_exceeded within_slippage get_slippage slippage_or_zero
    slippage_of send_swap query_balance cw20_token_address adjusted_minimum into_execute_msg
    should_continue disburse_funds_handler disburse_swapped coins_moved distribute split_received
    settle finish subtract get_swap_fee_rate get_automation_fee_rate automation_allocation
    checked_mul add_to get_fee_messages effective_collectors effective_collector is_community_pool
    all_fee_messages collector_messages fee_message message_for expect into_bank_msg one_from
    get_disbursement_messages destination_entries destination_entry entry_for destination_msg
    should_not_continue simulate_standard_dca_execution simulate_with standard_swap_amount
    simulate_swap get_price skip_simulation complete_simulation simulated_fee_rate simulated_amounts
    recorded create_event update_bounty bounty_data next_counter save get_config
simulated_ok = refl

abbrev simulated : Simulated
simulated =
    from_ok (simulate_standard_dca_execution market env store bounty 500000000000000000)
      simulated_ok

simulate_example : IsSimulated store bounty simulated.0 simulated.2
simulate_example =
    simulate_lem market env store bounty 500000000000000000 simulated.0 simulated.1 simulated.2 (
      from_ok_lem (simulate_standard_dca_execution market env store bounty 500000000000000000)
        simulated_ok)

sent_ok :
    is_ok (
      execute_swap api balances market to_json_binary env store bounty config
        (coins 100 "ukuji")
        none
        500000000000000000
        []
        [])
    ≡ true
unfolding execute_trigger_handler get_bounty bounty_from get_trigger assert_not_cancelled
    is_cancelled trigger_reached order_filled assert_target_time_is_in_past start delete_trigger
    is_scheduled execute_started get_swap_amount swap_factor get_swap_denom choose_route
    simulate_if_weighted execute_or_finish should_execute_again is_active save_next_trigger
    get_next_target_time get_next_time get_duration add_elapsed add_increments execute_swap
    is_inactive price_threshold_is_exceeded within_slippage get_slippage slippage_or_zero
    slippage_of send_swap query_balance cw20_token_address adjusted_minimum into_execute_msg
    should_continue
sent_ok = refl

abbrev sending : Response × Store
sending =
    from_ok
      (execute_swap api balances market to_json_binary env store bounty config (coins 100 "ukuji")
        none 500000000000000000 [] [])
      sent_ok

-- The whole swap amount, at the balance of 500.
get_swap_amount_example :
    (100 ≤ bounty.balance.amount)
    × ((coins 100 "ukuji").denom ≡ bounty.balance.denom)
    × ((factor : ℕ) × (swap_factor market hash store env bounty none ≡ ok factor)
        × (100 ≡ min (bounty.swap_amount * factor / 1000000000000000000) bounty.balance.amount))
unfolding execute_trigger_handler get_bounty bounty_from get_trigger assert_not_cancelled
    is_cancelled trigger_reached order_filled assert_target_time_is_in_past start delete_trigger
    is_scheduled execute_started get_swap_amount swap_factor get_swap_denom choose_route
    simulate_if_weighted execute_or_finish should_execute_again is_active save_next_trigger
    get_next_target_time get_next_time get_duration add_elapsed add_increments execute_swap
    is_inactive price_threshold_is_exceeded within_slippage get_slippage slippage_or_zero
    slippage_of send_swap query_balance cw20_token_address adjusted_minimum into_execute_msg
    should_continue
get_swap_amount_example = get_swap_amount_lem market hash store env bounty (coins 100 "ukuji") refl

abbrev a_quarter : ℕ
a_quarter = 250000000000000000

-- A believed price of two fifths is a quarter below one half.
get_slippage_example :
    ((a_quarter ≡ 0)
      × (((coins 100 "ukuji").amount ≡ 0)
          ⊎ ((e : ContractError) × (market.get_expected_receive_amount "fin"
                  (coins 100 "ukuji")
                  "uusk"
                  none
                ≡ err e))))
    ⊎ ((received : Coin) × (market.get_expected_receive_amount "fin" (coins 100 "ukuji") "uusk" none
          ≡ ok received)
        × (a_quarter
            ≡ (100 * 1000000000000000000 / received.amount - 400000000000000000)
              * 1000000000000000000
              / 400000000000000000))
unfolding execute_trigger_handler get_bounty bounty_from get_trigger assert_not_cancelled
    is_cancelled trigger_reached order_filled assert_target_time_is_in_past start delete_trigger
    is_scheduled execute_started get_swap_amount swap_factor get_swap_denom choose_route
    simulate_if_weighted execute_or_finish should_execute_again is_active save_next_trigger
    get_next_target_time get_next_time get_duration add_elapsed add_increments execute_swap
    is_inactive price_threshold_is_exceeded within_slippage get_slippage slippage_or_zero
    slippage_of send_swap query_balance cw20_token_address adjusted_minimum into_execute_msg
    should_continue
get_slippage_example =
    get_slippage_lem market "fin" (coins 100 "ukuji") "uusk" 400000000000000000 a_quarter none
      (omega arith) refl
