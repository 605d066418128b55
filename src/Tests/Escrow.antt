-- ===== src/Tests/Escrow.antt =====
-- The escrow and the fees of the DCA contract on one bounty.
use bounties.Prelude.{
  some, ℕ, ◌+◌, ◌-◌, ◌*◌, ◌≤◌, ◌≡◌, refl, true, List, [], ◌∷◌, arith, sum_of, map,
}
use bounties.Shared.Result.{ok, is_ok}
use bounties.Shared.Arith.{exact}
use bounties.Shared.Coin.{subtract, add, add_to, empty_of, one_from}
use bounties.Shared.Coin.Laws.{subtract-add}
use bounties.Shared.Chain.{Response, MessageInfo, SubMsg, bank_send}
use bounties.Shared.Cw20.{into_bank_msg, into_execute_msg}
use bounties.Shared.Cw20.Laws.{into_bank_msg_pays, payee, paid}
use bounties.Shared.Storage.{may_load, save}
use bounties.Dca.Types.{PostExecutionActionCacheEntry, get_swap_denom, performance_fee_rate}
use bounties.Dca.Store.{
  Store, get_config, get_bounty, bounty_from, get_trigger, get_disburse_escrow_task_due_date,
}
use bounties.Dca.Validation.Access.{assert_sender_is_executor, contains}
use bounties.Dca.Disbursement.{
  checked_mul, expect, destination_msg, entry_for, destination_entry, destination_entries,
  get_disbursement_messages,
}
use bounties.Dca.Disbursement.Parts.{msg_amount}
use bounties.Dca.Disbursement.Messages.{disbursement_lem}
use bounties.Dca.Disbursement.Order.{PaysInOrder}
use bounties.Dca.Fees.{
  is_community_pool, effective_collector, effective_collectors, message_for, fee_message,
  collector_messages, all_fee_messages, get_fee_messages, total_value, get_performance_fee,
  community_pool_allocation,
}
use bounties.Dca.Fees.Totals.{sent, fee_messages_le}
use bounties.Dca.Fees.Performance.{performance_fee_le_escrow, performance_fee_le_gain}
use bounties.Dca.DisburseFunds.{Split, split_received, settle}
use bounties.Dca.DisburseFunds.Amounts.{
  IsSplit, IsSettled, split_received_lem, split_received_total, settle_lem,
}
use bounties.Dca.DisburseEscrow.{
  TwapQuery, assert_due, emptied, pay_escrow, disburse_due, disburse_escrow_handler,
}
use bounties.Dca.DisburseEscrow.Emptied.{IsAllowed, IsEmptied, disburse_escrow_lem}
use bounties.Tests.Fixtures.{api, env, coins, config, bounty, store, from_ok, from_ok_lem}

-- A price of one half.
abbrev twap : TwapQuery
twap exchange swap target period route = ok 500000000000000000

abbrev executor : MessageInfo
executor = record { sender = "executor"; funds = [] }

payout_ok : is_ok (disburse_escrow_handler api twap env store executor 1) ≡ true
unfolding disburse_escrow_handler assert_sender_is_executor contains get_config get_bounty
    bounty_from get_trigger disburse_due assert_due get_disburse_escrow_task_due_date get_swap_denom
    get_performance_fee total_value performance_fee_rate subtract pay_escrow emptied empty_of
    get_disbursement_messages destination_entries destination_entry entry_for destination_msg
    checked_mul expect into_bank_msg into_execute_msg one_from get_fee_messages effective_collectors
    effective_collector is_community_pool community_pool_allocation all_fee_messages
    collector_messages fee_message message_for may_load
payout_ok = refl

abbrev payout : Response × Store
payout = from_ok (disburse_escrow_handler api twap env store executor 1) payout_ok

disburse_escrow_example :
    IsAllowed config env "executor"
    × ((due : ℕ) → may_load 1 store.disburse_escrow_tasks ≡ some due → due ≤ env.time)
    × (sent payout.0.messages ≤ 200)
    × IsEmptied bounty store payout.1
    × ((again : Response) × (disburse_escrow_handler api twap env payout.1 executor 1
          ≡ ok (again, payout.1))
        × (again.messages ≡ []))
unfolding get_config get_bounty bounty_from get_trigger may_load
disburse_escrow_example =
    disburse_escrow_lem api twap env store executor bounty config payout.0 payout.1 refl
      (omega arith) refl refl refl
      (from_ok_lem (disburse_escrow_handler api twap env store executor 1) payout_ok)

fees_ok : is_ok (get_fee_messages api store env (100 ∷ 7 ∷ []) "uusk" true) ≡ true
unfolding get_fee_messages get_config effective_collectors effective_collector is_community_pool
    community_pool_allocation all_fee_messages collector_messages fee_message message_for
    checked_mul expect into_bank_msg one_from
fees_ok = refl

fee_messages_example :
    sent (from_ok (get_fee_messages api store env (100 ∷ 7 ∷ []) "uusk" true) fees_ok) ≤ 107
unfolding get_config
fee_messages_example =
    fee_messages_le api store env (100 ∷ 7 ∷ []) "uusk" true config
      (from_ok (get_fee_messages api store env (100 ∷ 7 ∷ []) "uusk" true) fees_ok) refl refl
      (from_ok_lem (get_fee_messages api store env (100 ∷ 7 ∷ []) "uusk" true) fees_ok)

-- 500 ukuji and 2000 of 4000 uusk more than the standard strategy, at one half.
gain_example : 5 * (500000000000000000 * 200) ≤ (2500 - 1500) * 1000000000000000000
unfolding get_performance_fee performance_fee_rate total_value
gain_example =
    performance_fee_le_gain bounty (coins 500 "ukuji") (coins 2000 "uusk") 500000000000000000 2500
      1500 (coins 200 "uusk") refl refl refl refl

fee_of_escrow_example :
    (200 ≤ bounty.escrowed_amount.amount) × ((coins 200 "uusk").denom ≡ bounty.target_denom)
unfolding get_performance_fee performance_fee_rate total_value
fee_of_escrow_example = performance_fee_le_escrow bounty 500000000000000000 (coins 200 "uusk") refl

abbrev split : Split
split = record {
  swap_fee = 11;
  automation_fee = 2;
  total_fee = 13;
  total_after_all_fees = 1087;
  amount_to_escrow = 54;
  total_after_escrow = 1033;
}

split_example : IsSplit 1100 10000000000000000 2000000000000000 50000000000000000 split
unfolding split_received checked_mul
split_example =
    split_received_lem 1100 10000000000000000 2000000000000000 50000000000000000 split refl

split_total_example :
    (s : Split) × (split_received 1100 10000000000000000 2000000000000000 50000000000000000 ≡ ok s)
split_total_example =
    split_received_total 1100 10000000000000000 2000000000000000 50000000000000000 (omega arith)
      (omega arith) (omega arith) (omega arith)

settled_ok : is_ok (settle bounty (coins 500 "ukuji") split) ≡ true
unfolding settle add_to
settled_ok = refl

-- The last of the balance is swapped.
settle_example :
    IsSettled bounty 500 split (from_ok (settle bounty (coins 500 "ukuji") split) settled_ok)
settle_example =
    settle_lem bounty (coins 500 "ukuji") split
      (from_ok (settle bounty (coins 500 "ukuji") split) settled_ok)
      (from_ok_lem (settle bounty (coins 500 "ukuji") split) settled_ok)

disbursement_example :
    (msgs : List SubMsg) × (es : List PostExecutionActionCacheEntry) × (get_disbursement_messages
        api store bounty 1033
      ≡ ok (
        msgs,
        record store { post_execution_action_cache = save 1 es store.post_execution_action_cache },
      ))
    × (msgs ≡ map (λ (e : PostExecutionActionCacheEntry). e.msg) es)
    × PaysInOrder "uusk" 1033 bounty.destinations es
    × (sum_of msg_amount msgs ≤ 1033)
    × (1033 ≤ sum_of msg_amount msgs + 2)
disbursement_example =
    disbursement_lem api store bounty 1033 (omega arith) refl
      (("alice", refl), (("vault", refl), tt))

bank_msg_example :
    (payee (bank_send "alice" (coins 5 "uusk" ∷ [])) ≡ "alice")
    × (paid (bank_send "alice" (coins 5 "uusk" ∷ [])) ≡ coins 5 "uusk" ∷ [])
unfolding into_bank_msg one_from
bank_msg_example =
    into_bank_msg_pays api "alice" (coins 5 "uusk") (bank_send "alice" (coins 5 "uusk" ∷ [])) refl

subtract-add_example : subtract (coins 12 "uusk") (coins 5 "uusk") ≡ ok (coins 7 "uusk")
unfolding add
subtract-add_example = subtract-add (coins 7 "uusk") (coins 5 "uusk") (coins 12 "uusk") refl
