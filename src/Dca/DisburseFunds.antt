-- ===== src/Dca/DisburseFunds.antt =====
-- contracts/dca/src/handlers/disburse_funds.rs: the reply to a swap. What the swap brought is split
-- into fees, escrow and payment, the bounty's accounts are updated, and the payment is disbursed.
pub mod Amounts
pub mod Conservation
use bounties.Prelude.{
  ℕ, String, Bool, true, false, Option, none, some, List, [], ◌∷◌, ◌++◌, ltb, ◌==◌, if◌then◌else◌,
}
use bounties.Shared.Result.{
  ContractError, Argument, text, number, coin, panic, custom_error, Result, ok, err, or_err, ◌>>=◌,
}
use bounties.Shared.Arith.{Arith, decimal_fractional}
use bounties.Shared.Coin.{Coin, subtract, add_to}
use bounties.Shared.Chain.{
  Addr, Api, Balances, Env, Attribute, Response, SubMsg, SubMsgResult, succeeded, failed, Body,
  wasm_execute, sub_msg,
}
use bounties.Shared.Cw20.{query_balance}
use bounties.Dca.Types.{
  Bounty, BountyStatus, SwapCache, bounty_execution_completed, bounty_execution_skipped,
  slippage_tolerance_exceeded, get_swap_denom, should_not_continue,
}
use bounties.Dca.Store.{Store, not_found, get_bounty, update_bounty, create_event, delete_trigger}
use bounties.Dca.Disbursement.{checked_mul, get_disbursement_messages}
use bounties.Dca.Fees.{get_swap_fee_rate, get_automation_fee_rate, get_fee_messages}

-- `ContractError::from(CheckedMultiplyRatioError)`
abbrev pub ratio_error : ContractError
ratio_error = custom_error "Error: {:#?}" (text "Overflow" ∷ [])

-- How the coins received are divided.
pub record Split : Type 0 where
  pub swap_fee : ℕ
  pub automation_fee : ℕ
  pub total_fee : ℕ
  pub total_after_all_fees : ℕ
  pub amount_to_escrow : ℕ
  pub total_after_escrow : ℕ

-- The call of `DisburseEscrow` that the contract sends to itself.
abbrev pub disburse_escrow_msg : Env → ℕ → SubMsg
disburse_escrow_msg env id = sub_msg (wasm_execute env.contract (Body.disburse_escrow id) [])

-- The end of the handler, on both results of the swap.
unfoldable pub finish : Env → Bounty → List Attribute → List SubMsg → Store → Response × Store
finish env bounty attributes sub_msgs s =
    if should_not_continue bounty
    then (
      record {
        attributes = attributes;
        messages =
            if ltb 0 bounty.escrowed_amount.amount
            then sub_msgs ++ disburse_escrow_msg env bounty.id ∷ []
            else sub_msgs;
      },
      delete_trigger s bounty.id,
    )
    else (record { attributes = attributes; messages = sub_msgs }, s)

module _ ⦃m : Arith⦄ where
  unfoldable pub split_received : ℕ → ℕ → ℕ → ℕ → Result Split
  split_received received swap_fee_rate automation_fee_rate escrow_level = do
    swap_fee ← or_err (checked_mul received swap_fee_rate) ratio_error
    total_after_swap_fee ← or_err (m.sub received swap_fee) panic
    automation_fee ← or_err (checked_mul total_after_swap_fee automation_fee_rate) ratio_error
    total_fee ← or_err (m.add swap_fee automation_fee) panic
    total_after_all_fees ← or_err (m.sub received total_fee) panic
    amount_to_escrow ←
        or_err (m.multiply_ratio total_after_all_fees escrow_level decimal_fractional) panic
    total_after_escrow ← or_err (m.sub total_after_all_fees amount_to_escrow) panic
    ok (record {
      swap_fee = swap_fee;
      automation_fee = automation_fee;
      total_fee = total_fee;
      total_after_all_fees = total_after_all_fees;
      amount_to_escrow = amount_to_escrow;
      total_after_escrow = total_after_escrow;
    })

  -- The accounts of the bounty after the swap; `balance -= sent` panics below zero.
  unfoldable pub settle : Bounty → Coin → Split → Result Bounty
  settle bounty coin_sent split = do
    balance ← or_err (m.sub bounty.balance.amount coin_sent.amount) panic
    swapped_amount ← add_to bounty.swapped_amount coin_sent.amount
    received_amount ← add_to bounty.received_amount split.total_after_all_fees
    escrowed_amount ← add_to bounty.escrowed_amount split.amount_to_escrow
    ok (record bounty {
      balance = record { amount = balance; denom = bounty.balance.denom };
      swapped_amount = swapped_amount;
      received_amount = received_amount;
      escrowed_amount = escrowed_amount;
      status = if balance == 0 then BountyStatus.inactive else bounty.status;
    })

  module _ (api : Api) (q : Balances) (env : Env) where
    -- What the swap took and brought, by the balances before and after it.
    unfoldable pub coins_moved : Bounty → SwapCache → Result (Coin × Coin)
    coins_moved bounty cache = do
      swap_denom_balance ← query_balance api q (get_swap_denom bounty) env.contract
      receive_denom_balance ← query_balance api q bounty.target_denom env.contract
      coin_sent ← subtract cache.swap_denom_balance swap_denom_balance
      coin_received ← subtract receive_denom_balance cache.receive_denom_balance
      ok (coin_sent, coin_received)

    unfoldable pub distribute : Store → Bounty → Coin → Coin → Split → Result (Response × Store)
    distribute s bounty coin_sent coin_received split = do
      fee_msgs ←
          get_fee_messages api s env (split.swap_fee ∷ split.automation_fee ∷ [])
            coin_received.denom false
      settled ← settle bounty coin_sent split
      (msgs, s') ←
          get_disbursement_messages api (update_bounty s settled) settled split.total_after_escrow
      let fee : Coin = record { amount = split.total_fee; denom = coin_received.denom }
      ok (
          finish env settled
            (("disburse_funds", text "true")
              ∷ ("swapped_amount", coin coin_sent.amount coin_sent.denom)
              ∷ ("received_amount", coin coin_received.amount coin_received.denom)
              ∷ ("fee_amount", number split.total_fee)
              ∷ [])
            (fee_msgs ++ msgs)
            (create_event s' env settled.id
              (bounty_execution_completed coin_sent coin_received fee)))

    unfoldable pub disburse_swapped : Store → Bounty → Result (Response × Store)
    disburse_swapped s bounty = do
      cache ← or_err s.swap_cache (not_found "SwapCache")
      (coin_sent, coin_received) ← coins_moved bounty cache
      swap_fee_rate ← get_swap_fee_rate s bounty.swap_adjustment_strategy
      automation_fee_rate ← get_automation_fee_rate s bounty
      split ←
          split_received coin_received.amount swap_fee_rate automation_fee_rate bounty.escrow_level
      distribute s bounty coin_sent coin_received split

    -- The bounty as `finish` sees it in the second case is the one that was loaded.
    unfoldable pub disburse_funds_handler : Store → SubMsgResult → Result (Response × Store)
    disburse_funds_handler s reply = do
      bounty_id ← or_err s.bounty_id_cache (not_found "Uint128")
      bounty ← get_bounty s bounty_id
      elim reply [
        | succeeded ↦ disburse_swapped s bounty
        | failed ↦ ok (
            finish env bounty (("execution_skipped", text "slippage_tolerance_exceeded") ∷ []) []
              (create_event s env bounty.id (bounty_execution_skipped slippage_tolerance_exceeded)))
      ]
