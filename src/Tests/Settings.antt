-- ===== src/Tests/Settings.antt =====
-- The configuration of the DCA contract.
use bounties.Prelude.{◌≡◌, refl, true, none, some, []}
use bounties.Shared.Result.{ok, is_ok}
use bounties.Shared.Arith.{exact}
use bounties.Shared.Chain.{Response, MessageInfo}
use bounties.Dca.Store.{Store, get_config, update_config}
use bounties.Dca.Validation.Access.{assert_sender_is_admin}
use bounties.Dca.Validation.Values.{
  assert_fee_level_is_valid, assert_page_limit_is_valid,
  assert_slippage_tolerance_is_less_than_or_equal_to_one, assert_twap_period_is_valid,
  assert_no_more_than_10_fee_collectors, assert_fee_collector_allocations_add_up_to_one,
  assert_escrow_level_is_no_greater_than_100_percent, add_up,
}
use bounties.Dca.Validation.Addresses.{
  assert_address_is_valid, assert_addresses_are_valid, assert_fee_collector_addresses_are_valid,
}
use bounties.Dca.Types.{Config}
use bounties.Dca.Config.{
  ConfigUpdate, updated, check_config, instantiate_handler, update_config_handler,
}
use bounties.Dca.Config.Valid.{
  IsReplaced, IsValidConfig, instantiate_lem, instantiate_total, update_config_lem,
}
use bounties.Tests.Fixtures.{api, config, store, from_ok, from_ok_lem}

abbrev higher_fee : ConfigUpdate
higher_fee = record {
  executors = none;
  fee_collectors = none;
  default_swap_fee_percent = some 50000000000000000;
  weighted_scale_swap_fee_percent = none;
  automation_fee_percent = none;
  default_page_limit = none;
  paused = none;
  risk_weighted_average_escrow_level = none;
  twap_period = some 0;
  default_slippage_tolerance = none;
  exchange_contract_address = none;
}

abbrev admin : MessageInfo
admin = record { sender = "admin"; funds = [] }

instantiated_ok : is_ok (instantiate_handler api store config) ≡ true
unfolding instantiate_handler check_config assert_fee_level_is_valid assert_page_limit_is_valid
    assert_slippage_tolerance_is_less_than_or_equal_to_one assert_twap_period_is_valid
    assert_no_more_than_10_fee_collectors assert_fee_collector_allocations_add_up_to_one
    assert_escrow_level_is_no_greater_than_100_percent add_up assert_address_is_valid
    assert_addresses_are_valid assert_fee_collector_addresses_are_valid
instantiated_ok = refl

abbrev first : Response × Store
first = from_ok (instantiate_handler api store config) instantiated_ok

instantiate_example : IsValidConfig api config × (get_config first.1 ≡ ok config)
instantiate_example =
    instantiate_lem api store config first.0 first.1
      (from_ok_lem (instantiate_handler api store config) instantiated_ok)

instantiate_total_example :
    (resp : Response) × (instantiate_handler api store config
      ≡ ok (resp, update_config store config))
instantiate_total_example =
    instantiate_total api store config "admin" refl
      (instantiate_lem api store config first.0 first.1
        (from_ok_lem (instantiate_handler api store config) instantiated_ok)).0

updated_ok : is_ok (update_config_handler api store admin higher_fee) ≡ true
unfolding update_config_handler updated get_config assert_sender_is_admin check_config
    assert_fee_level_is_valid assert_page_limit_is_valid
    assert_slippage_tolerance_is_less_than_or_equal_to_one assert_twap_period_is_valid
    assert_no_more_than_10_fee_collectors assert_fee_collector_allocations_add_up_to_one
    assert_escrow_level_is_no_greater_than_100_percent add_up assert_address_is_valid
    assert_addresses_are_valid assert_fee_collector_addresses_are_valid
updated_ok = refl

abbrev later : Response × Store
later = from_ok (update_config_handler api store admin higher_fee) updated_ok

update_config_example :
    (admin.sender ≡ config.admin)
    × (new : Config) × (get_config later.1 ≡ ok new)
    × IsReplaced config higher_fee new
    × IsValidConfig api new
    × (later.1.bounties ≡ store.bounties)
unfolding get_config
update_config_example =
    update_config_lem api store admin higher_fee config later.0 later.1 refl
      (from_ok_lem (update_config_handler api store admin higher_fee) updated_ok)
