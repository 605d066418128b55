-- ===== src/Dca/Execute.antt =====
-- contracts/dca/src/handlers/execute_trigger.rs: a trigger that has been reached executes its bounty.
-- The encoding of the message to the exchange, `to_json_binary`, is a parameter.
pub mod Swap
pub mod Steps
pub mod Handler
pub mod Again
pub mod Twice
pub mod Answers
pub mod Live
use bounties.Prelude.{
  ℕ, ◌*◌, ◌/◌, String, Bool, true, false, not, Option, none, some, List, [], ◌∷◌, ◌++◌, ◌&&◌, ◌||◌,
  ltb, ◌==◌, str_eq, if◌then◌else◌,
}
use bounties.Shared.Result.{
  ContractError, custom_error, text, number, decimal, panic, Check, Result, ok, err, fail_if,
  or_err, ◌>>=◌, ◌>>◌,
}
use bounties.Shared.Arith.{Arith, decimal_fractional}
use bounties.Shared.Coin.{Coin}
use bounties.Shared.Chain.{
  Addr, Api, Balances, Binary, Body, Env, Attribute, Response, SubMsg, wasm_execute, sub_msg,
  reply_always,
}
use bounties.Shared.Cw20.{query_balance, into_execute_msg}
use bounties.Dca.Types.{
  Bounty, BountyStatus, Config, Trigger, TriggerConfiguration, SwapAdjustmentStrategy, SwapCache,
  risk_weighted_average, weighted_scale, ExecutionSkippedReason, slippage_tolerance_exceeded,
  slippage_query_error, swap_amount_adjusted_to_zero, price_threshold_exceeded,
  bounty_execution_triggered, bounty_execution_skipped, get_swap_denom, is_active, is_inactive,
  is_scheduled, is_cancelled, should_continue, should_not_continue,
}
use bounties.Dca.Store.{
  Store, get_config, get_bounty, update_bounty, create_event, save_trigger, delete_trigger,
}
use bounties.Dca.Time.{Calendar, get_next_target_time}
use bounties.Dca.Validation.Access.{assert_contract_is_not_paused, assert_target_time_is_in_past}
use bounties.Dca.DisburseFunds.{disburse_escrow_msg}
use bounties.Dca.Exchange.{Exchange, get_slippage}
use bounties.Dca.Swaps.{get_swap_amount, price_threshold_is_exceeded}
use bounties.Dca.Simulation.{simulate_standard_dca_execution}

abbrev pub after_swap_reply_id : ℕ
after_swap_reply_id = 2

-- `Bounty::denoms`
abbrev pub denoms : Bounty → String × String
denoms b = (get_swap_denom b, b.target_denom)

unfoldable pub assert_not_cancelled : Bounty → Check
assert_not_cancelled b = fail_if (is_cancelled b) (
    custom_error "bounty with id {} is cancelled, and is not available for execution"
      (number b.id ∷ []))

abbrev pub no_trigger : Bounty → ContractError
no_trigger b =
    custom_error "Bounty with id {} has no trigger attached, and is not available for execution"
      (number b.id ∷ [])

-- The error on a trigger of another kind.
abbrev pub wrong_trigger : Bounty → ContractError
wrong_trigger b =
    custom_error "vault with id {} has no trigger attached, and is not available for execution"
      (number b.id ∷ [])

-- A scheduled bounty becomes active, and starts now.
abbrev pub activated : Env → Bounty → Bounty
activated env b = record b { status = BountyStatus.active; started_at = some env.time }

unfoldable pub start : Env → Store → Bounty → Bounty × Store
start env s b =
    if is_scheduled b then (activated env b, update_bounty s (activated env b)) else (b, s)

unfoldable pub should_execute_again : Bounty → Bool
should_execute_again b =
    is_active b
    || elim b.performance_assessment_strategy [ none ↦ false | some t ↦ should_continue t b ]

abbrev pub is_risk_weighted : Bounty → Bool
is_risk_weighted b = elim b.swap_adjustment_strategy [
  | none ↦ false
  | some (risk_weighted_average _ _) ↦ true
  | some (weighted_scale _ _ _) ↦ false
]

-- The event and the attributes of a skipped execution.
abbrev pub skip :
    Env
    → Store
    → Bounty
    → List Attribute
    → List SubMsg
    → ExecutionSkippedReason
    → List Attribute
    → Response × Store
skip env s b attributes msgs reason more = (
  record { attributes = attributes ++ more; messages = msgs },
  create_event s env b.id (bounty_execution_skipped reason),
)

-- The bounty ended before, and only its comparison with the standard strategy goes on.
abbrev pub idle : Store → List Attribute → List SubMsg → Response × Store
idle s attributes msgs = (
  record {
    attributes = attributes ++ ("execution_skipped", text "vault_is_inactive") ∷ [];
    messages = msgs;
  },
  s,
)

module _ (x : Exchange) (env : Env) where
  unfoldable pub order_filled : Store → Bounty → ℕ → Result (List SubMsg)
  order_filled s b order_idx = do
    config ← get_config s
    remaining ← x.get_order config.exchange_contract_address order_idx (denoms b)
    fail_if (not (remaining.amount == 0)) (custom_error "target price has not been met" [])
    ok (
        sub_msg (
          wasm_execute config.exchange_contract_address (Body.withdraw_order order_idx (denoms b))
            [])
        ∷ [])

  -- Whether the trigger has been reached, with the message that withdraws a filled order.
  unfoldable pub trigger_reached :
      Store → Bounty → Option TriggerConfiguration → Result (List SubMsg)
  unfolding order_filled
  trigger_reached s b none = err (no_trigger b)
  trigger_reached s b (some (TriggerConfiguration.time target_time)) = do
    assert_target_time_is_in_past env.time target_time
    ok []
  trigger_reached s b (some (TriggerConfiguration.price _ order_idx)) = order_filled s b order_idx
  trigger_reached s b (some (TriggerConfiguration.escrow_reject _)) = err (wrong_trigger b)
  trigger_reached s b (some (TriggerConfiguration.escrow_accept _)) = err (wrong_trigger b)

module _ (x : Exchange) where
  -- The route given, unless the bounty's own brings more.
  unfoldable pub choose_route : Config → Bounty → Coin → Option Binary → Result (Option Binary)
  choose_route config b swap none = ok b.route
  choose_route config b swap (some route) = do
    new ←
        x.get_expected_receive_amount config.exchange_contract_address swap b.target_denom
          (some route)
    fail_if (not (str_eq new.denom b.target_denom))
        (custom_error "route target denom does not match vault target denom" [])
    old ← x.get_expected_receive_amount config.exchange_contract_address swap b.target_denom b.route
    ok (if ltb new.amount old.amount then b.route else some route)

module _ ⦃m : Arith⦄ (x : Exchange) (env : Env) where
  unfoldable pub simulate_if_weighted :
      Store → Bounty → ℕ → Result (Bounty × List Attribute × Store)
  simulate_if_weighted s b twap_price =
      if is_risk_weighted b
      then simulate_standard_dca_execution x env s b twap_price
      else ok (b, [], s)

module _ (cal : Calendar) (env : Env) where
  unfoldable pub save_next_trigger : Store → Bounty → Result Store
  save_next_trigger s b = do
    target_time ←
        or_err
          (get_next_target_time cal env.time (elim b.started_at [ none ↦ env.time | some t ↦ t ])
            b.time_interval)
          panic
    ok (
        save_trigger s
          (record { bounty_id = b.id; configuration = TriggerConfiguration.time target_time }))

module _ ⦃m : Arith⦄ where
  -- `Decimal::from_ratio(adjusted, swap_amount) * minimum`
  unfoldable pub adjusted_minimum : Bounty → ℕ → Result ℕ
  adjusted_minimum b adjusted = elim b.minimum_receive_amount [
    | none ↦ ok 0
    | some minimum ↦ do
      ratio ← or_err (m.from_ratio adjusted b.swap_amount) panic
      or_err (m.multiply_ratio minimum ratio decimal_fractional) panic
  ]

module _ ⦃m : Arith⦄ (api : Api) (q : Balances) (to_json_binary : Body → Binary) (env : Env) where
  -- The caches for the reply, and the call of the exchange.
  unfoldable pub send_swap :
      Store
      → Bounty
      → Config
      → Coin
      → Option Binary
      → List Attribute
      → List SubMsg
      → Result (Response × Store)
  send_swap s b config swap route attributes msgs = do
    swap_denom_balance ← query_balance api q (get_swap_denom b) env.contract
    receive_denom_balance ← query_balance api q b.target_denom env.contract
    minimum ← adjusted_minimum b swap.amount
    msg ←
        into_execute_msg api config.exchange_contract_address
          (to_json_binary (Body.swap (record { amount = minimum; denom = b.target_denom }) route))
          swap
    ok (
      record {
        attributes = attributes;
        messages = msgs ++ reply_always msg after_swap_reply_id ∷ [];
      },
      record s {
        bounty_id_cache = some b.id;
        swap_cache = some (record {
          swap_denom_balance = swap_denom_balance;
          receive_denom_balance = receive_denom_balance;
        });
      },
    )

module _ ⦃m : Arith⦄ (api : Api) (q : Balances) (x : Exchange) (to_json_binary : Body → Binary)
    (env : Env) where
  -- The match on the result of `get_slippage`: a panic is no `Err` that it could catch.
  unfoldable pub within_slippage :
      Store
      → Bounty
      → Config
      → Coin
      → Option Binary
      → ℕ
      → List Attribute
      → List SubMsg
      → Result ℕ
      → Result (Response × Store)
  within_slippage s b config swap route twap_price attributes msgs (ok slippage) =
      if ltb b.slippage_tolerance slippage
      then ok (
          skip env s b attributes msgs slippage_tolerance_exceeded (
            ("execution_skipped", text "slippage_tolerance_exceeded")
            ∷ ("twap_price", decimal twap_price)
            ∷ ("slippage", decimal slippage)
            ∷ []))
      else send_swap api q to_json_binary env s b config swap route attributes msgs
  within_slippage s b config swap route twap_price attributes msgs (err panic) = err panic
  within_slippage s b config swap route twap_price attributes msgs (err _) = ok (
      skip env s b attributes msgs slippage_query_error
        (("execution_skipped", text "slippage_query_error") ∷ []))

  -- The execution of a bounty that will be executed again.
  unfoldable pub execute_swap :
      Store
      → Bounty
      → Config
      → Coin
      → Option Binary
      → ℕ
      → List Attribute
      → List SubMsg
      → Result (Response × Store)
  unfolding within_slippage
  execute_swap s b config swap route twap_price attributes msgs =
      if is_inactive b
      then ok (idle s attributes msgs)
      else if swap.amount == 0
      then ok (
          skip env s b attributes msgs swap_amount_adjusted_to_zero (
            ("execution_skipped", text "swap_amount_adjusted_to_zero")
            ∷ ("twap_price", decimal twap_price)
            ∷ []))
      else (do
        exceeded ← price_threshold_is_exceeded b twap_price
        if exceeded
            then ok (
                skip env s b attributes msgs (price_threshold_exceeded twap_price) (
                  ("execution_skipped", text "price_threshold_exceeded")
                  ∷ ("twap_price", decimal twap_price)
                  ∷ []))
            else within_slippage s b config swap route twap_price attributes msgs (
                get_slippage x config.exchange_contract_address swap b.target_denom twap_price
                  route))

-- The end of a bounty that will not be executed again.
unfoldable pub finished : Env → Store → Bounty → List Attribute → List SubMsg → Response × Store
finished env s b attributes msgs = (
  record {
    attributes = attributes ++ ("execution_skipped", text "vault_should_not_continue") ∷ [];
    messages =
        if should_not_continue b && ltb 0 b.escrowed_amount.amount
        then msgs ++ disburse_escrow_msg env b.id ∷ []
        else msgs;
  },
  s,
)

module _ ⦃m : Arith⦄ (cal : Calendar) (api : Api) (q : Balances) (x : Exchange)
    (hash : SwapAdjustmentStrategy → ℕ) (to_json_binary : Body → Binary) (env : Env) where
  unfoldable pub execute_or_finish :
      Store
      → Bounty
      → Config
      → Coin
      → Option Binary
      → ℕ
      → List Attribute
      → List SubMsg
      → Result (Response × Store)
  execute_or_finish s b config swap route twap_price attributes msgs =
      if should_execute_again b
      then (do
        s1 ← save_next_trigger cal env s b
        execute_swap api q x to_json_binary env s1 b config swap route twap_price attributes msgs)
      else ok (finished env s b attributes msgs)

  unfoldable pub execute_started :
      Store → Bounty → Option Binary → List SubMsg → Result (Response × Store)
  unfolding simulate_if_weighted
  execute_started s b route msgs = do
    config ← get_config s
    swap ← get_swap_amount x hash s env b
    chosen ← choose_route x config b swap route
    twap_price ←
        x.get_twap_to_now config.exchange_contract_address (get_swap_denom b) b.target_denom
          config.twap_period chosen
    (after, simulated, s1) ←
        simulate_if_weighted x env
          (create_event s env b.id
            (bounty_execution_triggered b.target_denom (get_swap_denom b) twap_price))
          b twap_price
    let attributes =
        ("execute_trigger", text "true")
        ∷ ("bounty_id", number b.id)
        ∷ ("owner", text b.owner)
        ∷ ("twap_price", decimal twap_price)
        ∷ simulated
    execute_or_finish s1 after config swap chosen twap_price attributes msgs

  unfoldable pub execute_trigger_handler : Store → ℕ → Option Binary → Result (Response × Store)
  execute_trigger_handler s trigger_id route = do
    assert_contract_is_not_paused s
    bounty ← get_bounty s trigger_id
    assert_not_cancelled bounty
    msgs ← trigger_reached x env s bounty bounty.trigger
    let (started, s1) = start env (delete_trigger s bounty.id) bounty
    execute_started s1 started route msgs
