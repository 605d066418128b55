-- ===== src/Dca/Deposit.antt =====
-- contracts/dca/src/handlers/deposit.rs, with `get_risk_weighted_average_model_id` of
-- helpers/vault.rs: a deposit adds to a bounty, and starts an inactive one again.
pub mod Added
use bounties.Prelude.{
  ℕ, ◌/◌, String, Bool, true, false, not, Option, none, some, List, [], ◌∷◌, ◌&&◌, leb, ◌==◌,
  str_eq, if◌then◌else◌, length,
}
use bounties.Shared.Result.{
  ContractError, text, number, panic, custom_error, Result, ok, err, fail_if, or_err, ◌>>=◌, ◌>>◌,
}
use bounties.Shared.Arith.{Arith}
use bounties.Shared.Coin.{Coin, add}
use bounties.Shared.Chain.{Addr, Api, Env, MessageInfo, Response}
use bounties.Dca.Types.{
  Bounty, BountyStatus, TimeInterval, SwapAdjustmentStrategy, risk_weighted_average, weighted_scale,
  Trigger, TriggerConfiguration, bounty_funds_deposited, is_active, is_inactive,
}
use bounties.Dca.Store.{Store, get_bounty, update_bounty, create_event, save_trigger}
use bounties.Dca.Time.{Calendar, get_next_target_time, get_total_execution_duration}
use bounties.Dca.Validation.Access.{
  assert_contract_is_not_paused, assert_bounty_is_not_cancelled,
  assert_deposited_denom_matches_send_denom,
}

-- The cases of the match on `num_days`.
unfoldable pub model_id : ℕ → ℕ
model_id days =
    if leb days 32
    then 30
    else if leb days 38
    then 35
    else if leb days 44
    then 40
    else if leb days 51
    then 45
    else if leb days 57
    then 50
    else if leb days 65
    then 55
    else if leb days 77
    then 60
    else if leb days 96
    then 70
    else if leb days 123
    then 80
    else 90

-- `assert_exactly_one_asset(funds)` and then `funds[0]`
unfoldable pub only_asset : List Coin → Result Coin
only_asset (c ∷ []) = ok c
only_asset [] = err (custom_error "received {} denoms but required exactly 1" (number 0 ∷ []))
only_asset (a ∷ b ∷ rest) =
    err (
      custom_error "received {} denoms but required exactly 1"
        (number (length (a ∷ b ∷ rest)) ∷ []))

abbrev pub is_none : Option TriggerConfiguration → Bool
is_none none = true
is_none (some _) = false

abbrev pub deposit_response : Bounty → Coin → Store → Response × Store
deposit_response b c s = (
  record {
    attributes =
        ("deposit", text "true")
        ∷ ("bounty_id", number b.id)
        ∷ ("owner", text b.owner)
        ∷ ("deposited_amount", number c.amount)
        ∷ [];
    messages = [];
  },
  s,
)

abbrev pub accepted : Bounty → Coin → Store → Result (Response × Store)
accepted b c s = ok (deposit_response b c s)

module _ (cal : Calendar) where
  unfoldable pub get_risk_weighted_average_model_id : ℕ → Coin → ℕ → TimeInterval → Result ℕ
  get_risk_weighted_average_model_id block_time balance swap_amount time_interval =
      if swap_amount == 0 then err panic else (do
        seconds ←
            or_err
              (get_total_execution_duration cal block_time (balance.amount / swap_amount)
                time_interval)
              panic
        ok (model_id (seconds / 86400)))

  unfoldable pub adjusted_strategy :
      ℕ → Coin → Bounty → Option SwapAdjustmentStrategy → Result (Option SwapAdjustmentStrategy)
  adjusted_strategy time new_balance b none = ok none
  adjusted_strategy time new_balance b (some (risk_weighted_average _ position_type)) = do
    id ← get_risk_weighted_average_model_id time new_balance b.swap_amount b.time_interval
    ok (some (risk_weighted_average id position_type))
  adjusted_strategy time new_balance b (some (weighted_scale receive multiplier increase_only)) =
      ok (some (weighted_scale receive multiplier increase_only))

  -- The trigger of a bounty that starts again.
  unfoldable pub restart : Env → Store → ℕ → Bounty → Bool → Result Store
  restart env s bounty_id b was_inactive =
      if is_active b && (was_inactive && is_none b.trigger)
      then (do
        target_time ←
            or_err
              (get_next_target_time cal env.time
                (elim b.started_at [ none ↦ env.time | some t ↦ t ]) b.time_interval)
              panic
        ok (
            save_trigger s (record {
              bounty_id = bounty_id;
              configuration = TriggerConfiguration.time target_time;
            })))
      else ok s

  module _ ⦃m : Arith⦄ (api : Api) (env : Env) where
    -- The bounty after the deposit.
    unfoldable pub with_deposit : Bounty → Coin → Result Bounty
    with_deposit b c = do
      new_balance ← add b.balance c
      deposited_amount ← add b.deposited_amount c
      strategy ← adjusted_strategy env.time new_balance b b.swap_adjustment_strategy
      ok (record b {
        balance = new_balance;
        deposited_amount = deposited_amount;
        status = if is_inactive b then BountyStatus.active else b.status;
        swap_adjustment_strategy = strategy;
      })

    unfoldable pub deposit_handler : Store → MessageInfo → Addr → ℕ → Result (Response × Store)
    deposit_handler s info address bounty_id = do
      assert_contract_is_not_paused s
      _ ← api.addr_validate address
      c ← only_asset info.funds
      bounty ← get_bounty s bounty_id
      fail_if (not (str_eq address bounty.owner)) (
          custom_error "provided an incorrect owner address for bounty id {}"
            (number bounty_id ∷ []))
      assert_bounty_is_not_cancelled bounty
      assert_deposited_denom_matches_send_denom c.denom bounty.balance.denom
      updated ← with_deposit bounty c
      s' ←
          restart env
            (create_event (update_bounty s updated) env updated.id (bounty_funds_deposited c))
            bounty_id updated (is_inactive bounty)
      accepted updated c s'
