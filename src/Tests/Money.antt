-- ===== src/Tests/Money.antt =====
-- The payments of the DCA contract on one bounty.
use bounties.Prelude.{◌≡◌, refl, true}
use bounties.Shared.Result.{is_ok}
use bounties.Shared.Arith.{exact}
use bounties.Shared.Coin.{Coin}
use bounties.Shared.Chain.{Response}
use bounties.Shared.Coin.{subtract, add_to, one_from}
use bounties.Shared.Cw20.{query_balance, into_bank_msg, into_execute_msg}
use bounties.Dca.Types.{get_swap_denom, is_inactive, should_not_continue}
use bounties.Dca.Store.{Store, get_config}
use bounties.Dca.Disbursement.{
  checked_mul, expect, destination_msg, entry_for, destination_entry, destination_entries,
  get_disbursement_messages,
}
use bounties.Dca.Fees.{
  is_community_pool, get_swap_fee_rate, effective_collector, effective_collectors, message_for,
  fee_message, collector_messages, all_fee_messages, get_fee_messages, automation_allocation,
  get_automation_fee_rate,
}
use bounties.Dca.DisburseFunds.{
  finish, split_received, settle, coins_moved, distribute, disburse_swapped,
}
use bounties.Tests.Fixtures.{api, env, balances, bounty, store, from_ok}

swapped_ok : is_ok (disburse_swapped api balances env store bounty) ≡ true
unfolding disburse_swapped coins_moved distribute split_received settle finish query_balance
    get_swap_denom subtract get_config get_swap_fee_rate get_automation_fee_rate
    automation_allocation checked_mul add_to get_fee_messages effective_collectors
    effective_collector is_community_pool all_fee_messages collector_messages fee_message
    message_for expect into_bank_msg into_execute_msg one_from get_disbursement_messages
    destination_entries destination_entry entry_for destination_msg should_not_continue is_inactive
swapped_ok = refl

abbrev swapped : Response × Store
swapped = from_ok (disburse_swapped api balances env store bounty) swapped_ok
