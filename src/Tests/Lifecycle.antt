-- ===== src/Tests/Lifecycle.antt =====
-- The life of one bounty: from the instantiation of the contract to the disbursement of the escrow.
use bounties.Prelude.{
  Option, String, [], if◌then◌else◌, none, refl, some, str_eq, true, ℕ, ◌+◌, ◌∷◌, ◌≡◌,
}
use bounties.Shared.Arith.{exact}
use bounties.Shared.Chain.{Balances, Binary, Body, MessageInfo, Response, succeeded}
use bounties.Shared.Coin.{add_to, empty_of, one_from, subtract}
use bounties.Shared.Cw20.{cw20_token_address, into_bank_msg, into_execute_msg, query_balance}
use bounties.Shared.Result.{is_ok, ok}
use bounties.Shared.Storage.{may_load, remove, save}
use bounties.Dca.Cancel.{
  cancel_bounty_handler, ended, refund, retract, retract_messages, schedule_escrow,
}
use bounties.Dca.Config.{check_config, instantiate_handler}
use bounties.Dca.Create.{
  CreateBounty, attach_trigger, builder, check_destinations, check_terms, create_bounty_handler,
  event_amount, or_owner, save_created, start_by_price, start_by_time, without_microns,
}
use bounties.Dca.Deposit.{only_asset}
use bounties.Dca.DisburseEscrow.{
  TwapQuery, assert_due, disburse_due, disburse_escrow_handler, emptied, pay_escrow,
}
use bounties.Dca.DisburseFunds.{
  coins_moved, disburse_funds_handler, disburse_swapped, distribute, finish, settle, split_received,
}
use bounties.Dca.Disbursement.{
  checked_mul, destination_entries, destination_entry, destination_msg, entry_for, expect,
  get_disbursement_messages,
}
use bounties.Dca.Exchange.{Exchange, get_slippage, slippage_of, slippage_or_zero}
use bounties.Dca.Execute.{
  adjusted_minimum, assert_not_cancelled, choose_route, execute_or_finish, execute_started,
  execute_swap, execute_trigger_handler, order_filled, save_next_trigger, send_swap,
  should_execute_again, simulate_if_weighted, start, trigger_reached, within_slippage,
}
use bounties.Dca.Fees.{
  all_fee_messages, automation_allocation, collector_messages, community_pool_allocation,
  effective_collector, effective_collectors, fee_message, get_automation_fee_rate, get_fee_messages,
  get_performance_fee, get_swap_fee_rate, is_community_pool, message_for, total_value,
}
use bounties.Dca.Machine.{fresh}
use bounties.Dca.Store.{
  Store, bounty_data, bounty_from, create_event, delete_disburse_escrow_task, delete_trigger,
  get_bounty, get_config, get_disburse_escrow_task_due_date, get_trigger, next_counter, save_bounty,
  save_trigger, update_bounty, update_config,
}
use bounties.Dca.Swaps.{
  get_expected_execution_completed_date, get_swap_amount, price_threshold_is_exceeded,
  remaining_balance, swap_factor,
}
use bounties.Dca.Time.{
  add_elapsed, add_increments, get_duration, get_next_time, get_next_target_time,
}
use bounties.Dca.Types.{
  Bounty, SwapAdjustmentStrategy, daily, get_swap_denom, is_active, is_cancelled, is_inactive,
  is_scheduled, performance_fee_rate, should_continue, should_not_continue,
}
use bounties.Dca.Update.{
  UpdateBounty, Value, apply_updates, assert_only_swap_amount, check_new_destinations,
  replace_strategy, rescale_minimum, rescale_strategy, rescaled, update_bounty_handler,
  update_destinations, update_label, update_minimum_receive_amount, update_slippage_tolerance,
  update_strategy, update_swap_amount, update_time_interval, update_trigger,
}
use bounties.Dca.Validation.Access.{
  assert_bounty_is_not_cancelled, assert_contract_is_not_paused,
  assert_sender_is_admin_or_bounty_owner, assert_sender_is_bounty_owner, assert_sender_is_executor,
  assert_target_time_is_in_past, contains,
}
use bounties.Dca.Validation.Addresses.{
  Callback, assert_address_is_valid, assert_addresses_are_valid,
  assert_contract_destination_callbacks_are_valid, assert_destination_callback_addresses_are_valid,
  assert_fee_collector_addresses_are_valid,
}
use bounties.Dca.Validation.Strategies.{assert_route_exists_for_denoms}
use bounties.Dca.Validation.Values.{
  add_up, assert_destination_allocations_add_up_to_one, assert_destinations_limit_is_not_breached,
  assert_escrow_level_is_no_greater_than_100_percent,
  assert_fee_collector_allocations_add_up_to_one, assert_fee_level_is_valid,
  assert_label_is_no_longer_than_100_characters, assert_no_destination_allocations_are_zero,
  assert_no_more_than_10_fee_collectors, assert_page_limit_is_valid,
  assert_slippage_tolerance_is_less_than_or_equal_to_one, assert_time_interval_is_valid,
  assert_twap_period_is_valid,
}
use bounties.Tests.Fixtures.{api, balances, coins, config, env, from_ok}
use bounties.Tests.Gregorian.{gregorian}

-- A price of one half, no order left open.
abbrev pub market : Exchange
market = record {
  get_twap_to_now = λ a swap target period route. ok 500000000000000000;
  get_expected_receive_amount = λ a c target route. ok (coins (c.amount + c.amount) target);
  get_order = λ a order denoms. ok (coins 0 "ukuji");
}

abbrev pub hash : SwapAdjustmentStrategy → ℕ
hash strategy = 0

abbrev pub to_json_binary : Body → Binary
to_json_binary body = []

abbrev pub from_json : Binary → Option Callback
from_json msg = some Callback.z_delegate

abbrev pub format : Value → String
format value = ""

abbrev pub destination : Bounty → String
destination b = b.owner

abbrev pub owner : MessageInfo
owner = record { sender = "owner"; funds = coins 1000 "ukuji" ∷ [] }

abbrev pub creation : CreateBounty
creation = record {
  owner = "owner";
  label = none;
  destinations = [];
  target_denom = "uusk";
  route = none;
  slippage_tolerance = none;
  time_interval = daily;
  target_start_time_utc_seconds = none;
  target_receive_amount = none;
  swap_amount = 100;
  is_assessed = true;
}

pub instantiated_ok : is_ok (instantiate_handler api fresh config) ≡ true
unfolding instantiate_handler check_config assert_fee_level_is_valid assert_page_limit_is_valid
    assert_slippage_tolerance_is_less_than_or_equal_to_one assert_twap_period_is_valid
    assert_no_more_than_10_fee_collectors assert_fee_collector_allocations_add_up_to_one
    assert_escrow_level_is_no_greater_than_100_percent add_up assert_address_is_valid
    assert_addresses_are_valid assert_fee_collector_addresses_are_valid update_config from_ok
instantiated_ok = refl

abbrev pub first : Response × Store
first = from_ok (instantiate_handler api fresh config) instantiated_ok

pub created_ok :
    is_ok (create_bounty_handler api market from_json env first.1 owner creation) ≡ true
unfolding instantiate_handler check_config assert_fee_level_is_valid assert_page_limit_is_valid
    assert_slippage_tolerance_is_less_than_or_equal_to_one assert_twap_period_is_valid
    assert_no_more_than_10_fee_collectors assert_fee_collector_allocations_add_up_to_one
    assert_escrow_level_is_no_greater_than_100_percent add_up assert_address_is_valid
    assert_addresses_are_valid assert_fee_collector_addresses_are_valid update_config from_ok
    create_bounty_handler assert_contract_is_not_paused get_config only_asset check_terms
    assert_destinations_limit_is_not_breached assert_time_interval_is_valid
    assert_route_exists_for_denoms check_destinations or_owner
    assert_destination_callback_addresses_are_valid assert_contract_destination_callbacks_are_valid
    assert_no_destination_allocations_are_zero assert_destination_allocations_add_up_to_one
    save_created save_bounty next_counter update_bounty bounty_data builder event_amount
    without_microns create_event attach_trigger start_by_time start_by_price save_trigger save
    may_load remove
created_ok = refl

abbrev pub created : Response × Store
created = from_ok (create_bounty_handler api market from_json env first.1 owner creation) created_ok

pub executed_ok :
    is_ok (
      execute_trigger_handler gregorian api balances market hash to_json_binary env created.1 1
        none)
    ≡ true
unfolding instantiate_handler check_config assert_fee_level_is_valid assert_page_limit_is_valid
    assert_slippage_tolerance_is_less_than_or_equal_to_one assert_twap_period_is_valid
    assert_no_more_than_10_fee_collectors assert_fee_collector_allocations_add_up_to_one
    assert_escrow_level_is_no_greater_than_100_percent add_up assert_address_is_valid
    assert_addresses_are_valid assert_fee_collector_addresses_are_valid update_config from_ok
    create_bounty_handler assert_contract_is_not_paused get_config only_asset check_terms
    assert_destinations_limit_is_not_breached assert_time_interval_is_valid
    assert_route_exists_for_denoms check_destinations or_owner
    assert_destination_callback_addresses_are_valid assert_contract_destination_callbacks_are_valid
    assert_no_destination_allocations_are_zero assert_destination_allocations_add_up_to_one
    save_created save_bounty next_counter update_bounty bounty_data builder event_amount
    without_microns create_event attach_trigger start_by_time start_by_price save_trigger save
    may_load remove execute_trigger_handler get_bounty bounty_from get_trigger assert_not_cancelled
    is_cancelled trigger_reached order_filled assert_target_time_is_in_past start delete_trigger
    is_scheduled execute_started get_swap_amount swap_factor get_swap_denom choose_route
    simulate_if_weighted execute_or_finish should_execute_again is_active save_next_trigger
    get_next_target_time get_next_time get_duration add_elapsed add_increments execute_swap
    is_inactive price_threshold_is_exceeded within_slippage get_slippage slippage_or_zero
    slippage_of send_swap query_balance cw20_token_address adjusted_minimum into_execute_msg
    should_continue
executed_ok = refl

abbrev pub executed : Response × Store
executed =
    from_ok
      (execute_trigger_handler gregorian api balances market hash to_json_binary env created.1 1
        none)
      executed_ok

-- 100 ukuji have brought 200 uusk.
abbrev pub after_swap : Balances
after_swap = record {
  bank_balance = λ a denom. ok (coins (if str_eq denom "ukuji" then 800 else 2300) denom);
  token_balance = λ token a. ok 0;
}

pub swapped_ok : is_ok (disburse_funds_handler api after_swap env executed.1 succeeded) ≡ true
unfolding instantiate_handler check_config assert_fee_level_is_valid assert_page_limit_is_valid
    assert_slippage_tolerance_is_less_than_or_equal_to_one assert_twap_period_is_valid
    assert_no_more_than_10_fee_collectors assert_fee_collector_allocations_add_up_to_one
    assert_escrow_level_is_no_greater_than_100_percent add_up assert_address_is_valid
    assert_addresses_are_valid assert_fee_collector_addresses_are_valid update_config from_ok
    create_bounty_handler assert_contract_is_not_paused get_config only_asset check_terms
    assert_destinations_limit_is_not_breached assert_time_interval_is_valid
    assert_route_exists_for_denoms check_destinations or_owner
    assert_destination_callback_addresses_are_valid assert_contract_destination_callbacks_are_valid
    assert_no_destination_allocations_are_zero assert_destination_allocations_add_up_to_one
    save_created save_bounty next_counter update_bounty bounty_data builder event_amount
    without_microns create_event attach_trigger start_by_time start_by_price save_trigger save
    may_load remove execute_trigger_handler get_bounty bounty_from get_trigger assert_not_cancelled
    is_cancelled trigger_reached order_filled assert_target_time_is_in_past start delete_trigger
    is_scheduled execute_started get_swap_amount swap_factor get_swap_denom choose_route
    simulate_if_weighted execute_or_finish should_execute_again is_active save_next_trigger
    get_next_target_time get_next_time get_duration add_elapsed add_increments execute_swap
    is_inactive price_threshold_is_exceeded within_slippage get_slippage slippage_or_zero
    slippage_of send_swap query_balance cw20_token_address adjusted_minimum into_execute_msg
    should_continue disburse_funds_handler disburse_swapped coins_moved distribute split_received
    settle finish subtract get_swap_fee_rate get_automation_fee_rate automation_allocation
    checked_mul add_to get_fee_messages effective_collectors effective_collector is_community_pool
    all_fee_messages collector_messages fee_message message_for expect into_bank_msg one_from
    get_disbursement_messages destination_entries destination_entry entry_for destination_msg
    should_not_continue
swapped_ok = refl

abbrev pub swapped : Response × Store
swapped = from_ok (disburse_funds_handler api after_swap env executed.1 succeeded) swapped_ok

abbrev pub executor : MessageInfo
executor = record { sender = "executor"; funds = [] }

abbrev pub twap : TwapQuery
twap exchange swap target period route = ok 500000000000000000

pub paid_ok : is_ok (disburse_escrow_handler api twap env swapped.1 executor 1) ≡ true
unfolding instantiate_handler check_config assert_fee_level_is_valid assert_page_limit_is_valid
    assert_slippage_tolerance_is_less_than_or_equal_to_one assert_twap_period_is_valid
    assert_no_more_than_10_fee_collectors assert_fee_collector_allocations_add_up_to_one
    assert_escrow_level_is_no_greater_than_100_percent add_up assert_address_is_valid
    assert_addresses_are_valid assert_fee_collector_addresses_are_valid update_config from_ok
    create_bounty_handler assert_contract_is_not_paused get_config only_asset check_terms
    assert_destinations_limit_is_not_breached assert_time_interval_is_valid
    assert_route_exists_for_denoms check_destinations or_owner
    assert_destination_callback_addresses_are_valid assert_contract_destination_callbacks_are_valid
    assert_no_destination_allocations_are_zero assert_destination_allocations_add_up_to_one
    save_created save_bounty next_counter update_bounty bounty_data builder event_amount
    without_microns create_event attach_trigger start_by_time start_by_price save_trigger save
    may_load remove execute_trigger_handler get_bounty bounty_from get_trigger assert_not_cancelled
    is_cancelled trigger_reached order_filled assert_target_time_is_in_past start delete_trigger
    is_scheduled execute_started get_swap_amount swap_factor get_swap_denom choose_route
    simulate_if_weighted execute_or_finish should_execute_again is_active save_next_trigger
    get_next_target_time get_next_time get_duration add_elapsed add_increments execute_swap
    is_inactive price_threshold_is_exceeded within_slippage get_slippage slippage_or_zero
    slippage_of send_swap query_balance cw20_token_address adjusted_minimum into_execute_msg
    should_continue disburse_funds_handler disburse_swapped coins_moved distribute split_received
    settle finish subtract get_swap_fee_rate get_automation_fee_rate automation_allocation
    checked_mul add_to get_fee_messages effective_collectors effective_collector is_community_pool
    all_fee_messages collector_messages fee_message message_for expect into_bank_msg one_from
    get_disbursement_messages destination_entries destination_entry entry_for destination_msg
    should_not_continue disburse_escrow_handler assert_sender_is_executor contains disburse_due
    assert_due get_disburse_escrow_task_due_date get_performance_fee total_value
    performance_fee_rate pay_escrow emptied empty_of community_pool_allocation
    delete_disburse_escrow_task
paid_ok = refl

abbrev pub paid : Response × Store
paid = from_ok (disburse_escrow_handler api twap env swapped.1 executor 1) paid_ok

pub created_bounty_ok : is_ok (get_bounty created.1 1) ≡ true
unfolding instantiate_handler check_config assert_fee_level_is_valid assert_page_limit_is_valid
    assert_slippage_tolerance_is_less_than_or_equal_to_one assert_twap_period_is_valid
    assert_no_more_than_10_fee_collectors assert_fee_collector_allocations_add_up_to_one
    assert_escrow_level_is_no_greater_than_100_percent add_up assert_address_is_valid
    assert_addresses_are_valid assert_fee_collector_addresses_are_valid update_config from_ok
    create_bounty_handler assert_contract_is_not_paused get_config only_asset check_terms
    assert_destinations_limit_is_not_breached assert_time_interval_is_valid
    assert_route_exists_for_denoms check_destinations or_owner
    assert_destination_callback_addresses_are_valid assert_contract_destination_callbacks_are_valid
    assert_no_destination_allocations_are_zero assert_destination_allocations_add_up_to_one
    save_created save_bounty next_counter update_bounty bounty_data builder event_amount
    without_microns create_event attach_trigger start_by_time start_by_price save_trigger save
    may_load remove execute_trigger_handler get_bounty bounty_from get_trigger assert_not_cancelled
    is_cancelled trigger_reached order_filled assert_target_time_is_in_past start delete_trigger
    is_scheduled execute_started get_swap_amount swap_factor get_swap_denom choose_route
    simulate_if_weighted execute_or_finish should_execute_again is_active save_next_trigger
    get_next_target_time get_next_time get_duration add_elapsed add_increments execute_swap
    is_inactive price_threshold_is_exceeded within_slippage get_slippage slippage_or_zero
    slippage_of send_swap query_balance cw20_token_address adjusted_minimum into_execute_msg
    should_continue
created_bounty_ok = refl

abbrev pub new_bounty : Bounty
new_bounty = from_ok (get_bounty created.1 1) created_bounty_ok

pub executed_bounty_ok : is_ok (get_bounty executed.1 1) ≡ true
unfolding instantiate_handler check_config assert_fee_level_is_valid assert_page_limit_is_valid
    assert_slippage_tolerance_is_less_than_or_equal_to_one assert_twap_period_is_valid
    assert_no_more_than_10_fee_collectors assert_fee_collector_allocations_add_up_to_one
    assert_escrow_level_is_no_greater_than_100_percent add_up assert_address_is_valid
    assert_addresses_are_valid assert_fee_collector_addresses_are_valid update_config from_ok
    create_bounty_handler assert_contract_is_not_paused get_config only_asset check_terms
    assert_destinations_limit_is_not_breached assert_time_interval_is_valid
    assert_route_exists_for_denoms check_destinations or_owner
    assert_destination_callback_addresses_are_valid assert_contract_destination_callbacks_are_valid
    assert_no_destination_allocations_are_zero assert_destination_allocations_add_up_to_one
    save_created save_bounty next_counter update_bounty bounty_data builder event_amount
    without_microns create_event attach_trigger start_by_time start_by_price save_trigger save
    may_load remove execute_trigger_handler get_bounty bounty_from get_trigger assert_not_cancelled
    is_cancelled trigger_reached order_filled assert_target_time_is_in_past start delete_trigger
    is_scheduled execute_started get_swap_amount swap_factor get_swap_denom choose_route
    simulate_if_weighted execute_or_finish should_execute_again is_active save_next_trigger
    get_next_target_time get_next_time get_duration add_elapsed add_increments execute_swap
    is_inactive price_threshold_is_exceeded within_slippage get_slippage slippage_or_zero
    slippage_of send_swap query_balance cw20_token_address adjusted_minimum into_execute_msg
    should_continue
executed_bounty_ok = refl

abbrev pub started_bounty : Bounty
started_bounty = from_ok (get_bounty executed.1 1) executed_bounty_ok

pub swapped_bounty_ok : is_ok (get_bounty swapped.1 1) ≡ true
unfolding instantiate_handler check_config assert_fee_level_is_valid assert_page_limit_is_valid
    assert_slippage_tolerance_is_less_than_or_equal_to_one assert_twap_period_is_valid
    assert_no_more_than_10_fee_collectors assert_fee_collector_allocations_add_up_to_one
    assert_escrow_level_is_no_greater_than_100_percent add_up assert_address_is_valid
    assert_addresses_are_valid assert_fee_collector_addresses_are_valid update_config from_ok
    create_bounty_handler assert_contract_is_not_paused get_config only_asset check_terms
    assert_destinations_limit_is_not_breached assert_time_interval_is_valid
    assert_route_exists_for_denoms check_destinations or_owner
    assert_destination_callback_addresses_are_valid assert_contract_destination_callbacks_are_valid
    assert_no_destination_allocations_are_zero assert_destination_allocations_add_up_to_one
    save_created save_bounty next_counter update_bounty bounty_data builder event_amount
    without_microns create_event attach_trigger start_by_time start_by_price save_trigger save
    may_load remove execute_trigger_handler get_bounty bounty_from get_trigger assert_not_cancelled
    is_cancelled trigger_reached order_filled assert_target_time_is_in_past start delete_trigger
    is_scheduled execute_started get_swap_amount swap_factor get_swap_denom choose_route
    simulate_if_weighted execute_or_finish should_execute_again is_active save_next_trigger
    get_next_target_time get_next_time get_duration add_elapsed add_increments execute_swap
    is_inactive price_threshold_is_exceeded within_slippage get_slippage slippage_or_zero
    slippage_of send_swap query_balance cw20_token_address adjusted_minimum into_execute_msg
    should_continue disburse_funds_handler disburse_swapped coins_moved distribute split_received
    settle finish subtract get_swap_fee_rate get_automation_fee_rate automation_allocation
    checked_mul add_to get_fee_messages effective_collectors effective_collector is_community_pool
    all_fee_messages collector_messages fee_message message_for expect into_bank_msg one_from
    get_disbursement_messages destination_entries destination_entry entry_for destination_msg
    should_not_continue
swapped_bounty_ok = refl

abbrev pub paid_bounty : Bounty
paid_bounty = from_ok (get_bounty swapped.1 1) swapped_bounty_ok

abbrev pub change : UpdateBounty
change = record {
  label = some "bounty";
  destinations = some [];
  slippage_tolerance = some 10000000000000000;
  minimum_receive_amount = none;
  time_interval = none;
  swap_adjustment_strategy = none;
  swap_amount = some 50;
}

pub updated_ok :
    is_ok (update_bounty_handler format gregorian api env created.1 owner 1 change) ≡ true
unfolding instantiate_handler check_config assert_fee_level_is_valid assert_page_limit_is_valid
    assert_slippage_tolerance_is_less_than_or_equal_to_one assert_twap_period_is_valid
    assert_no_more_than_10_fee_collectors assert_fee_collector_allocations_add_up_to_one
    assert_escrow_level_is_no_greater_than_100_percent add_up assert_address_is_valid
    assert_addresses_are_valid assert_fee_collector_addresses_are_valid update_config from_ok
    create_bounty_handler assert_contract_is_not_paused get_config only_asset check_terms
    assert_destinations_limit_is_not_breached assert_time_interval_is_valid
    assert_route_exists_for_denoms check_destinations or_owner
    assert_destination_callback_addresses_are_valid assert_contract_destination_callbacks_are_valid
    assert_no_destination_allocations_are_zero assert_destination_allocations_add_up_to_one
    save_created save_bounty next_counter update_bounty bounty_data builder event_amount
    without_microns create_event attach_trigger start_by_time start_by_price save_trigger save
    may_load remove execute_trigger_handler get_bounty bounty_from get_trigger assert_not_cancelled
    is_cancelled trigger_reached order_filled assert_target_time_is_in_past start delete_trigger
    is_scheduled execute_started get_swap_amount swap_factor get_swap_denom choose_route
    simulate_if_weighted execute_or_finish should_execute_again is_active save_next_trigger
    get_next_target_time get_next_time get_duration add_elapsed add_increments execute_swap
    is_inactive price_threshold_is_exceeded within_slippage get_slippage slippage_or_zero
    slippage_of send_swap query_balance cw20_token_address adjusted_minimum into_execute_msg
    should_continue update_bounty_handler assert_sender_is_bounty_owner
    assert_bounty_is_not_cancelled apply_updates update_swap_amount assert_only_swap_amount
    rescale_minimum rescale_strategy rescaled update_label
    assert_label_is_no_longer_than_100_characters update_destinations check_new_destinations
    update_slippage_tolerance update_minimum_receive_amount update_time_interval update_trigger
    update_strategy replace_strategy
updated_ok = refl

abbrev pub updated : Response × Store
updated =
    from_ok (update_bounty_handler format gregorian api env created.1 owner 1 change) updated_ok

pub cancelled_ok : is_ok (cancel_bounty_handler gregorian destination env created.1 owner 1) ≡ true
unfolding instantiate_handler check_config assert_fee_level_is_valid assert_page_limit_is_valid
    assert_slippage_tolerance_is_less_than_or_equal_to_one assert_twap_period_is_valid
    assert_no_more_than_10_fee_collectors assert_fee_collector_allocations_add_up_to_one
    assert_escrow_level_is_no_greater_than_100_percent add_up assert_address_is_valid
    assert_addresses_are_valid assert_fee_collector_addresses_are_valid update_config from_ok
    create_bounty_handler assert_contract_is_not_paused get_config only_asset check_terms
    assert_destinations_limit_is_not_breached assert_time_interval_is_valid
    assert_route_exists_for_denoms check_destinations or_owner
    assert_destination_callback_addresses_are_valid assert_contract_destination_callbacks_are_valid
    assert_no_destination_allocations_are_zero assert_destination_allocations_add_up_to_one
    save_created save_bounty next_counter update_bounty bounty_data builder event_amount
    without_microns create_event attach_trigger start_by_time start_by_price save_trigger save
    may_load remove execute_trigger_handler get_bounty bounty_from get_trigger assert_not_cancelled
    is_cancelled trigger_reached order_filled assert_target_time_is_in_past start delete_trigger
    is_scheduled execute_started get_swap_amount swap_factor get_swap_denom choose_route
    simulate_if_weighted execute_or_finish should_execute_again is_active save_next_trigger
    get_next_target_time get_next_time get_duration add_elapsed add_increments execute_swap
    is_inactive price_threshold_is_exceeded within_slippage get_slippage slippage_or_zero
    slippage_of send_swap query_balance cw20_token_address adjusted_minimum into_execute_msg
    should_continue update_bounty_handler assert_sender_is_bounty_owner
    assert_bounty_is_not_cancelled apply_updates update_swap_amount assert_only_swap_amount
    rescale_minimum rescale_strategy rescaled update_label
    assert_label_is_no_longer_than_100_characters update_destinations check_new_destinations
    update_slippage_tolerance update_minimum_receive_amount update_time_interval update_trigger
    update_strategy replace_strategy cancel_bounty_handler assert_sender_is_admin_or_bounty_owner
    schedule_escrow ended refund retract retract_messages remaining_balance
    get_expected_execution_completed_date
cancelled_ok = refl

abbrev pub cancelled : Response × Store
cancelled = from_ok (cancel_bounty_handler gregorian destination env created.1 owner 1) cancelled_ok
