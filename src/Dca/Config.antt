-- ===== src/Dca/Config.antt =====
-- The configuration of the DCA contract: contracts/dca/src/handlers/instantiate.rs, migrate.rs and
-- update_config.rs. The messages of `instantiate` and `migrate` have the fields of `Config`, which
-- the handlers read. The contract's name and version are kept by the package cw2, outside the store.
pub mod Valid
use Prim.Native.String.{compare}
use package.text.Mathlib.Text.{is_le}
use bounties.Prelude.{not, str_eq, ℕ, String, Bool, Option, none, some, List, [], ◌∷◌}
use bounties.Shared.Result.{
  StdError, ContractError, fail_if, text, Check, Result, ok, err, ◌>>=◌, ◌>>◌,
}
use bounties.Shared.Arith.{Arith}
use bounties.Shared.Chain.{Addr, Api, MessageInfo, Attribute, Response}
use bounties.Dca.Types.{Config, FeeCollector}
use bounties.Dca.Store.{Store, get_config, update_config}
use bounties.Dca.Validation.Access.{assert_sender_is_admin}
use bounties.Dca.Validation.Values.{
  assert_fee_level_is_valid, assert_page_limit_is_valid,
  assert_slippage_tolerance_is_less_than_or_equal_to_one, assert_twap_period_is_valid,
  assert_no_more_than_10_fee_collectors, assert_fee_collector_allocations_add_up_to_one,
  assert_escrow_level_is_no_greater_than_100_percent,
}
use bounties.Dca.Validation.Addresses.{
  assert_addresses_are_valid, assert_fee_collector_addresses_are_valid,
}

-- The arguments of `update_config_handler`.
pub record ConfigUpdate : Type 0 where
  pub executors : Option (List Addr)
  pub fee_collectors : Option (List FeeCollector)
  pub default_swap_fee_percent : Option ℕ
  pub weighted_scale_swap_fee_percent : Option ℕ
  pub automation_fee_percent : Option ℕ
  pub default_page_limit : Option ℕ
  pub paused : Option Bool
  pub risk_weighted_average_escrow_level : Option ℕ
  pub twap_period : Option ℕ
  pub default_slippage_tolerance : Option ℕ
  pub exchange_contract_address : Option Addr

abbrev pub unwrap_or : {A : Type 0} → Option A → A → A
unwrap_or none a = a
unwrap_or (some b) a = b

unfoldable pub updated : Config → ConfigUpdate → Config
updated existing u = record {
  admin = existing.admin;
  executors = unwrap_or u.executors existing.executors;
  fee_collectors = unwrap_or u.fee_collectors existing.fee_collectors;
  default_swap_fee_percent = unwrap_or u.default_swap_fee_percent existing.default_swap_fee_percent;
  weighted_scale_swap_fee_percent =
      unwrap_or u.weighted_scale_swap_fee_percent existing.weighted_scale_swap_fee_percent;
  automation_fee_percent = unwrap_or u.automation_fee_percent existing.automation_fee_percent;
  default_page_limit = unwrap_or u.default_page_limit existing.default_page_limit;
  paused = unwrap_or u.paused existing.paused;
  risk_weighted_average_escrow_level =
      unwrap_or u.risk_weighted_average_escrow_level existing.risk_weighted_average_escrow_level;
  twap_period = unwrap_or u.twap_period existing.twap_period;
  default_slippage_tolerance =
      unwrap_or u.default_slippage_tolerance existing.default_slippage_tolerance;
  exchange_contract_address =
      unwrap_or u.exchange_contract_address existing.exchange_contract_address;
}

abbrev pub contract_name : String
contract_name = "crates.io:calc-dca"

abbrev pub instantiated : Config → Response
instantiated msg = record {
  attributes = ("instantiate", text "true") ∷ ("admin", text msg.admin) ∷ [];
  messages = [];
}

-- The name and the version that cw2 answers with, against the contract's own.
unfoldable pub check_version : Result (String × String) → String → Check
check_version get_contract_version contract_version = do
  (contract, version) ← get_contract_version
  fail_if (not (str_eq contract contract_name))
      (ContractError.std (StdError.generic_err "Can only upgrade from same type" []))
  fail_if (not (is_le (compare version contract_version)))
      (ContractError.std (StdError.generic_err "Cannot upgrade from a newer version" []))

module _ ⦃m : Arith⦄ (api : Api) where
  -- The checks that both handlers make, in their order.
  unfoldable pub check_config : Config → Check
  check_config c =
      assert_fee_level_is_valid c.default_swap_fee_percent
      >> (assert_fee_level_is_valid c.weighted_scale_swap_fee_percent
          >> (assert_fee_level_is_valid c.automation_fee_percent
              >> (assert_page_limit_is_valid (some c.default_page_limit)
                  >> (assert_slippage_tolerance_is_less_than_or_equal_to_one
                        c.default_slippage_tolerance
                      >> (assert_twap_period_is_valid c.twap_period
                          >> (assert_addresses_are_valid api c.executors "executor"
                              >> (assert_no_more_than_10_fee_collectors c.fee_collectors
                                  >> (assert_fee_collector_addresses_are_valid api c.fee_collectors
                                      >> (assert_fee_collector_allocations_add_up_to_one
                                            c.fee_collectors
                                          >> assert_escrow_level_is_no_greater_than_100_percent
                                              c.risk_weighted_average_escrow_level)))))))))

  unfoldable pub instantiate_handler : Store → Config → Result (Response × Store)
  instantiate_handler s msg = do
    _ ← api.addr_validate msg.admin
    check_config msg
    ok (instantiated msg, update_config s msg)

  -- The attribute `msg` prints the whole message, and is left out.
  unfoldable pub migrate_handler :
      Result (String × String) → String → Store → Config → Result (Response × Store)
  migrate_handler get_contract_version contract_version s msg = do
    _ ← api.addr_validate msg.admin
    check_config msg
    check_version get_contract_version contract_version
    ok (record { attributes = ("migrate", text "true") ∷ []; messages = [] }, update_config s msg)

  -- The attribute `config` prints the whole record, and is left out.
  unfoldable pub update_config_handler :
      Store → MessageInfo → ConfigUpdate → Result (Response × Store)
  update_config_handler s info update = do
    assert_sender_is_admin s info.sender
    existing_config ← get_config s
    check_config (updated existing_config update)
    ok (
      record { attributes = ("update_config", text "true") ∷ []; messages = [] },
      update_config s (updated existing_config update),
    )
