-- ===== src/Tests/Reached.antt =====
-- What holds along the life of one bounty.
use bounties.Prelude.{[], arith, false, inr, none, refl, some, ◌≡◌, ◌≤◌}
use bounties.Shared.Arith.{exact}
use bounties.Shared.Chain.{Env, succeeded}
use bounties.Shared.Coin.{Coin, add_to, one_from, subtract}
use bounties.Shared.Cw20.{cw20_token_address, into_bank_msg, into_execute_msg, query_balance}
use bounties.Shared.Result.{is_ok}
use bounties.Shared.Storage.{may_load, remove, save}
use bounties.Dca.Config.{check_config, instantiate_handler}
use bounties.Dca.Create.{
  attach_trigger, builder, check_destinations, check_terms, create_bounty_handler, event_amount,
  or_owner, save_created, start_by_price, start_by_time, without_microns,
}
use bounties.Dca.Deposit.{only_asset}
use bounties.Dca.DisburseEscrow.{disburse_escrow_handler}
use bounties.Dca.DisburseFunds.{
  coins_moved, disburse_funds_handler, disburse_swapped, distribute, finish, settle, split_received,
}
use bounties.Dca.Disbursement.{
  checked_mul, destination_entries, destination_entry, destination_msg, entry_for, expect,
  get_disbursement_messages,
}
use bounties.Dca.Exchange.{get_slippage, slippage_of, slippage_or_zero}
use bounties.Dca.Execute.{
  adjusted_minimum, assert_not_cancelled, choose_route, execute_or_finish, execute_started,
  execute_swap, execute_trigger_handler, order_filled, save_next_trigger, send_swap,
  should_execute_again, simulate_if_weighted, start, trigger_reached, within_slippage,
}
use bounties.Dca.Execute.Again.{IsKeyed}
use bounties.Dca.Execute.Handler.{IsTriggered, execute_trigger_lem}
use bounties.Dca.Execute.Twice.{IsHeld, execute_trigger-IsHeld, execute_trigger-twice}
use bounties.Dca.Fees.{
  all_fee_messages, automation_allocation, collector_messages, effective_collector,
  effective_collectors, fee_message, get_automation_fee_rate, get_fee_messages, get_swap_fee_rate,
  is_community_pool, message_for,
}
use bounties.Dca.Fees.Totals.{sent}
use bounties.Dca.Machine.{Reachable, Step, fresh}
use bounties.Dca.Machine.Conservation.{Reachable-conserves_escrow}
use bounties.Dca.Machine.Ledger.{IsSound, Reachable-IsSound}
use bounties.Dca.Store.{
  Store, bounty_data, bounty_from, create_event, delete_trigger, get_bounty, get_config,
  get_trigger, next_counter, save_bounty, save_trigger, update_bounty, update_config,
}
use bounties.Dca.Swaps.{get_swap_amount, price_threshold_is_exceeded, swap_factor}
use bounties.Dca.Time.{
  add_elapsed, add_increments, get_duration, get_next_time, get_next_target_time,
}
use bounties.Dca.Types.{
  get_swap_denom, is_active, is_cancelled, is_inactive, is_scheduled, should_continue,
  should_not_continue,
}
use bounties.Dca.Update.{update_bounty_handler}
use bounties.Dca.Update.Terms.{IsUpdated, update_bounty_lem}
use bounties.Dca.Validation.Access.{assert_contract_is_not_paused, assert_target_time_is_in_past}
use bounties.Dca.Validation.Addresses.{
  assert_address_is_valid, assert_addresses_are_valid,
  assert_contract_destination_callbacks_are_valid, assert_destination_callback_addresses_are_valid,
  assert_fee_collector_addresses_are_valid,
}
use bounties.Dca.Validation.Strategies.{assert_route_exists_for_denoms}
use bounties.Dca.Validation.Values.{
  add_up, assert_destination_allocations_add_up_to_one, assert_destinations_limit_is_not_breached,
  assert_escrow_level_is_no_greater_than_100_percent,
  assert_fee_collector_allocations_add_up_to_one, assert_fee_level_is_valid,
  assert_no_destination_allocations_are_zero, assert_no_more_than_10_fee_collectors,
  assert_page_limit_is_valid, assert_slippage_tolerance_is_less_than_or_equal_to_one,
  assert_time_interval_is_valid, assert_twap_period_is_valid,
}
use bounties.Tests.Fixtures.{api, balances, config, env, from_ok, from_ok_lem}
use bounties.Tests.Gregorian.{gregorian}
use bounties.Tests.Lifecycle.{
  after_swap, change, created, created_bounty_ok, created_ok, creation, destination, executed,
  executed_ok, executor, first, format, from_json, hash, instantiated_ok, market, new_bounty, owner,
  paid, paid_bounty, paid_ok, swapped, swapped_bounty_ok, swapped_ok, to_json_binary, twap, updated,
  updated_ok,
}

abbrev Reaches : Store → Type 0
Reaches = Reachable gregorian api hash to_json_binary from_json format destination

created_reachable : Reaches created.1
created_reachable =
    Reachable.after first.1 created.0 created.1
      (Reachable.instantiated config first.0 first.1
        (from_ok_lem (instantiate_handler api fresh config) instantiated_ok))
      (Step.created env market owner creation first.1 created.0 created.1 (
        from_ok_lem (create_bounty_handler api market from_json env first.1 owner creation)
          created_ok))

executed_reachable : Reaches executed.1
executed_reachable = Reachable.after created.1 executed.0 executed.1 created_reachable (
    Step.executed env balances market 1 none created.1 executed.0 executed.1 (
      from_ok_lem
        (execute_trigger_handler gregorian api balances market hash to_json_binary env created.1 1
          none)
        executed_ok))

swapped_reachable : Reaches swapped.1
swapped_reachable = Reachable.after executed.1 swapped.0 swapped.1 executed_reachable (
    Step.swapped env after_swap succeeded executed.1 swapped.0 swapped.1
      (from_ok_lem (disburse_funds_handler api after_swap env executed.1 succeeded) swapped_ok))

IsSound_example : IsSound api swapped.1
IsSound_example =
    Reachable-IsSound gregorian api hash to_json_binary from_json format destination swapped.1
      swapped_reachable

execute_trigger_example :
    IsTriggered gregorian api balances market hash to_json_binary env created.1 1 executed.0
      executed.1
execute_trigger_example =
    execute_trigger_lem gregorian api balances market hash to_json_binary env created.1 1 none
      executed.0 executed.1
      (from_ok_lem
        (execute_trigger_handler gregorian api balances market hash to_json_binary env created.1 1
          none)
        executed_ok)

created-IsKeyed : IsKeyed created.1
created-IsKeyed id b h =
    let sound =
      Reachable-IsSound gregorian api hash to_json_binary from_json format destination created.1
        created_reachable in
    let (own, _) = sound.ledger id b h in own

execute_trigger-IsHeld_example : IsHeld new_bounty 1 executed.1.bounties
execute_trigger-IsHeld_example =
    execute_trigger-IsHeld gregorian api balances market hash to_json_binary env created.1 1
      new_bounty none executed.0 executed.1 created-IsKeyed
      (from_ok_lem (get_bounty created.1 1) created_bounty_ok)
      (from_ok_lem
        (execute_trigger_handler gregorian api balances market hash to_json_binary env created.1 1
          none)
        executed_ok)

execute_trigger-twice_example :
    is_ok (
      execute_trigger_handler gregorian api balances market hash to_json_binary env executed.1 1
        (some []))
    ≡ false
unfolding instantiate_handler check_config assert_fee_level_is_valid assert_page_limit_is_valid
    assert_slippage_tolerance_is_less_than_or_equal_to_one assert_twap_period_is_valid
    assert_no_more_than_10_fee_collectors assert_fee_collector_allocations_add_up_to_one
    assert_escrow_level_is_no_greater_than_100_percent add_up assert_address_is_valid
    assert_addresses_are_valid assert_fee_collector_addresses_are_valid update_config from_ok
    create_bounty_handler assert_contract_is_not_paused get_config only_asset check_terms
    assert_destinations_limit_is_not_breached assert_time_interval_is_valid
    assert_route_exists_for_denoms check_destinations or_owner
    assert_destination_callback_addresses_are_valid assert_contract_destination_callbacks_are_valid
    assert_no_destination_allocations_are_zero assert_destination_allocations_add_up_to_one
    save_created save_bounty next_counter update_bounty bounty_data builder event_amount
    without_microns create_event attach_trigger start_by_time start_by_price save_trigger save
    may_load remove execute_trigger_handler get_bounty bounty_from get_trigger assert_not_cancelled
    is_cancelled trigger_reached order_filled assert_target_time_is_in_past start delete_trigger
    is_scheduled execute_started get_swap_amount swap_factor get_swap_denom choose_route
    simulate_if_weighted execute_or_finish should_execute_again is_active save_next_trigger
    get_next_target_time get_next_time get_duration add_elapsed add_increments execute_swap
    is_inactive price_threshold_is_exceeded within_slippage get_slippage slippage_or_zero
    slippage_of send_swap query_balance cw20_token_address adjusted_minimum into_execute_msg
    should_continue
execute_trigger-twice_example =
    execute_trigger-twice gregorian api balances market hash to_json_binary env created.1 1
      new_bounty none executed.0 executed.1 created-IsKeyed
      (from_ok_lem (get_bounty created.1 1) created_bounty_ok) (inr (86400, refl, omega arith))
      (omega arith)
      (from_ok_lem
        (execute_trigger_handler gregorian api balances market hash to_json_binary env created.1 1
          none)
        executed_ok)
      (some [])

conserves_escrow_example : sent paid.0.messages ≤ paid_bounty.escrowed_amount.amount
unfolding instantiate_handler check_config assert_fee_level_is_valid assert_page_limit_is_valid
    assert_slippage_tolerance_is_less_than_or_equal_to_one assert_twap_period_is_valid
    assert_no_more_than_10_fee_collectors assert_fee_collector_allocations_add_up_to_one
    assert_escrow_level_is_no_greater_than_100_percent add_up assert_address_is_valid
    assert_addresses_are_valid assert_fee_collector_addresses_are_valid update_config from_ok
    create_bounty_handler assert_contract_is_not_paused get_config only_asset check_terms
    assert_destinations_limit_is_not_breached assert_time_interval_is_valid
    assert_route_exists_for_denoms check_destinations or_owner
    assert_destination_callback_addresses_are_valid assert_contract_destination_callbacks_are_valid
    assert_no_destination_allocations_are_zero assert_destination_allocations_add_up_to_one
    save_created save_bounty next_counter update_bounty bounty_data builder event_amount
    without_microns create_event attach_trigger start_by_time start_by_price save_trigger save
    may_load remove execute_trigger_handler get_bounty bounty_from get_trigger assert_not_cancelled
    is_cancelled trigger_reached order_filled assert_target_time_is_in_past start delete_trigger
    is_scheduled execute_started get_swap_amount swap_factor get_swap_denom choose_route
    simulate_if_weighted execute_or_finish should_execute_again is_active save_next_trigger
    get_next_target_time get_next_time get_duration add_elapsed add_increments execute_swap
    is_inactive price_threshold_is_exceeded within_slippage get_slippage slippage_or_zero
    slippage_of send_swap query_balance cw20_token_address adjusted_minimum into_execute_msg
    should_continue disburse_funds_handler disburse_swapped coins_moved distribute split_received
    settle finish subtract get_swap_fee_rate get_automation_fee_rate automation_allocation
    checked_mul add_to get_fee_messages effective_collectors effective_collector is_community_pool
    all_fee_messages collector_messages fee_message message_for expect into_bank_msg one_from
    get_disbursement_messages destination_entries destination_entry entry_for destination_msg
    should_not_continue
conserves_escrow_example =
    Reachable-conserves_escrow gregorian api hash to_json_binary from_json format destination twap
      env swapped.1 executor paid_bounty paid.0 paid.1 swapped_reachable
      (from_ok_lem (get_bounty swapped.1 1) swapped_bounty_ok) (omega arith)
      (from_ok_lem (disburse_escrow_handler api twap env swapped.1 executor 1) paid_ok)

update_bounty_example : IsUpdated created.1 1 "owner" updated.1
update_bounty_example =
    update_bounty_lem format gregorian api env created.1 owner 1 change updated.0 updated.1 (
      from_ok_lem (update_bounty_handler format gregorian api env created.1 owner 1 change)
        updated_ok)

abbrev tomorrow : Env
tomorrow = record { time = 90000; height = 8; contract = "dca" }
