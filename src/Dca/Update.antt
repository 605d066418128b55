-- ===== src/Dca/Update.antt =====
-- contracts/dca/src/handlers/update_vault.rs: the owner changes the terms of a bounty; and
-- handlers/update_swap_adjustment_handler.rs. The text that `format!` makes of a value is a
-- parameter.
pub mod Drafts
pub mod Kept
pub mod Terms
use bounties.Prelude.{ℕ, String, Bool, Option, none, some, List, [], ◌∷◌, ◌++◌}
use bounties.Shared.Result.{
  ContractError, custom_error, text, number, decimal, panic, Check, Result, ok, err, fail_if,
  or_err, ◌>>=◌, ◌>>◌,
}
use bounties.Shared.Arith.{Arith, decimal_fractional}
use bounties.Shared.Chain.{Addr, Api, Attribute, Env, MessageInfo, Response}
use bounties.Dca.Types.{
  Bounty, Destination, TimeInterval, TriggerConfiguration, SwapAdjustmentStrategy, weighted_scale,
  risk_weighted_average, Update, bounty_updated,
}
use bounties.Dca.Store.{
  Store, get_bounty, update_bounty, create_event, save_trigger, delete_trigger,
}
use bounties.Dca.Time.{Calendar, get_next_target_time}
use bounties.Dca.Validation.Access.{
  assert_sender_is_bounty_owner, assert_sender_is_executor, assert_bounty_is_not_cancelled,
}
use bounties.Dca.Validation.Addresses.{assert_destination_callback_addresses_are_valid}
use bounties.Dca.Validation.Values.{
  assert_destinations_limit_is_not_breached, assert_time_interval_is_valid,
  assert_label_is_no_longer_than_100_characters,
  assert_slippage_tolerance_is_less_than_or_equal_to_one,
  assert_no_destination_allocations_are_zero, assert_destination_allocations_add_up_to_one,
  assert_weighted_scale_multiplier_is_no_more_than_10,
}
use bounties.Dca.Validation.Strategies.{
  SwapAdjustmentStrategyParams, assert_swap_adjustment_value_is_valid,
}
use bounties.Dca.SwapAdjustments.{update_swap_adjustment}
use bounties.Dca.Create.{or_owner, or_default, is_some}

-- A value that is put into a text.
pub data Value : Type 0 where
  of_label : Option String → Value
  of_amount : ℕ → Value
  of_optional_amount : Option ℕ → Value
  of_tolerance : ℕ → Value
  of_destinations : List Destination → Value
  of_interval : TimeInterval → Value
  of_strategy : Option SwapAdjustmentStrategy → Value
  of_params : SwapAdjustmentStrategyParams → Value
  of_trigger : TriggerConfiguration → Value

-- The message; `bounty_description` is not read.
pub record UpdateBounty : Type 0 where
  pub label : Option String
  pub destinations : Option (List Destination)
  pub slippage_tolerance : Option ℕ
  pub minimum_receive_amount : Option ℕ
  pub time_interval : Option TimeInterval
  pub swap_adjustment_strategy : Option SwapAdjustmentStrategyParams
  pub swap_amount : Option ℕ

-- The handler's variables.
pub record Draft : Type 0 where
  pub bounty : Bounty
  pub updates : List Update
  pub attributes : List Attribute
  pub store : Store

abbrev pub draft_of : Store → Bounty → Draft
draft_of s b = record {
  bounty = b;
  updates = [];
  attributes =
      ("update_bounty", text "true") ∷ ("bounty_id", number b.id) ∷ ("owner", text b.owner) ∷ [];
  store = s;
}

-- The updated bounty is stored, with the event of its updates.
abbrev pub saved : Env → Draft → Response × Store
saved env d = (
  record { attributes = d.attributes; messages = [] },
  create_event (update_bounty d.store d.bounty) env d.bounty.id (bounty_updated d.updates),
)

-- `if let Some(x) = option { … }`
abbrev pub if_some {ℓ} : {A : Type ℓ} → Option A → (A → Draft → Result Draft) → Draft → Result Draft
if_some none change d = ok d
if_some (some a) change d = change a d

-- The checks that nothing else changes with the swap amount.
unfoldable pub assert_only_swap_amount : UpdateBounty → Check
assert_only_swap_amount msg = do
  fail_if (is_some msg.minimum_receive_amount)
      (custom_error "cannot update swap amount and minimum receive amount at the same time." [])
  fail_if (is_some msg.swap_adjustment_strategy)
      (custom_error "cannot update swap amount and swap adjustment strategy at the same time." [])

module _ ⦃m : Arith⦄ where
  -- `amount * Decimal::from_ratio(swap_amount, bounty.swap_amount)`
  unfoldable pub rescaled : ℕ → ℕ → ℕ → Result ℕ
  rescaled amount swap_amount old_swap_amount = do
    ratio ← or_err (m.from_ratio swap_amount old_swap_amount) panic
    or_err (m.multiply_ratio amount ratio decimal_fractional) panic

  unfoldable pub check_new_destinations : Api → List Destination → Check
  check_new_destinations api destinations = do
    assert_destinations_limit_is_not_breached destinations
    assert_destination_callback_addresses_are_valid api destinations
    assert_no_destination_allocations_are_zero destinations
    assert_destination_allocations_add_up_to_one destinations

module _ (format : Value → String) where
  -- The bounty, with the update and the attribute of one field.
  abbrev pub changed : Draft → Bounty → String → Value → Value → Draft
  changed d b field old new = record {
    bounty = b;
    updates =
        d.updates ++ record { field = field; old_value = format old; new_value = format new } ∷ [];
    attributes = d.attributes ++ (field, text (format new)) ∷ [];
    store = d.store;
  }

  unfoldable pub update_label : String → Draft → Result Draft
  update_label new d = do
    assert_label_is_no_longer_than_100_characters new
    ok (
        changed d (record d.bounty { label = some new }) "label" (Value.of_label d.bounty.label)
          (Value.of_label (some new)))

  unfoldable pub update_slippage_tolerance : ℕ → Draft → Result Draft
  update_slippage_tolerance new d = do
    assert_slippage_tolerance_is_less_than_or_equal_to_one new
    ok (
        changed d (record d.bounty { slippage_tolerance = new }) "slippage_tolerance"
          (Value.of_tolerance d.bounty.slippage_tolerance) (Value.of_tolerance new))

  unfoldable pub update_minimum_receive_amount : ℕ → Draft → Result Draft
  update_minimum_receive_amount new d = ok (
      changed d (record d.bounty { minimum_receive_amount = some new }) "minimum_receive_amount"
        (Value.of_amount (or_default d.bounty.minimum_receive_amount 0)) (Value.of_amount new))

  module _ (cal : Calendar) (env : Env) where
    -- The trigger follows the new interval, where the bounty has one.
    unfoldable pub update_trigger : Option TriggerConfiguration → Draft → Result Draft
    update_trigger none d = ok d
    update_trigger (some old) d = do
      target_time ←
          or_err
            (get_next_target_time cal env.time (or_default d.bounty.started_at env.time)
              d.bounty.time_interval)
            panic
      let new = TriggerConfiguration.time target_time
      ok (record (changed d d.bounty "trigger" (Value.of_trigger old) (Value.of_trigger new)) {
        store =
            save_trigger (delete_trigger d.store d.bounty.id)
              (record { bounty_id = d.bounty.id; configuration = new });
      })

    unfoldable pub update_time_interval : TimeInterval → Draft → Result Draft
    update_time_interval new d = do
      assert_time_interval_is_valid new
      update_trigger d.bounty.trigger (
          changed d (record d.bounty { time_interval = new }) "time_interval"
            (Value.of_interval d.bounty.time_interval) (Value.of_interval new))

  abbrev pub refused_strategy : SwapAdjustmentStrategyParams → Draft → Result Draft
  refused_strategy new d = err (
      custom_error "cannot update swap adjustment strategy from {:?} to {:?}" (
        text (format (Value.of_strategy d.bounty.swap_adjustment_strategy))
        ∷ text (format (Value.of_params new))
        ∷ []))

  -- The attribute shows the new strategy, and the update what the message says of it.
  abbrev pub with_strategy : SwapAdjustmentStrategy → Value → Draft → Draft
  with_strategy new shown d = record {
    bounty = record d.bounty { swap_adjustment_strategy = some new };
    updates =
        d.updates
        ++ record {
          field = "swap_adjustment_strategy";
          old_value = format (Value.of_strategy d.bounty.swap_adjustment_strategy);
          new_value = format shown;
        }
          ∷ [];
    attributes =
        d.attributes
        ++ ("swap_adjustment_strategy", text (format (Value.of_strategy (some new)))) ∷ [];
    store = d.store;
  }

  unfoldable pub replace_strategy :
      SwapAdjustmentStrategyParams → Option SwapAdjustmentStrategy → Draft → Result Draft
  replace_strategy (SwapAdjustmentStrategyParams.weighted_scale receive multiplier increase_only)
        (some (weighted_scale _ _ _)) d =
      do
        assert_weighted_scale_multiplier_is_no_more_than_10 multiplier
        ok (
            with_strategy (weighted_scale receive multiplier increase_only)
              (Value.of_params
                (SwapAdjustmentStrategyParams.weighted_scale receive multiplier increase_only))
              d)
  replace_strategy new _ d = refused_strategy new d

  unfoldable pub update_strategy : SwapAdjustmentStrategyParams → Draft → Result Draft
  update_strategy new d = replace_strategy new d.bounty.swap_adjustment_strategy d

  module _ ⦃m : Arith⦄ where
    unfoldable pub rescale_minimum : ℕ → Option ℕ → Draft → Result Draft
    rescale_minimum swap_amount none d = ok d
    rescale_minimum swap_amount (some minimum) d = do
      new ← rescaled minimum swap_amount d.bounty.swap_amount
      ok (
          changed d (record d.bounty { minimum_receive_amount = some new }) "minimum_receive_amount"
            (Value.of_optional_amount d.bounty.minimum_receive_amount)
            (Value.of_optional_amount (some new)))

    unfoldable pub rescale_strategy : ℕ → Option SwapAdjustmentStrategy → Draft → Result Draft
    rescale_strategy swap_amount (some (weighted_scale receive multiplier increase_only)) d = do
      new ← rescaled receive swap_amount d.bounty.swap_amount
      ok (
          with_strategy (weighted_scale new multiplier increase_only)
            (Value.of_strategy (some (weighted_scale new multiplier increase_only))) d)
    rescale_strategy swap_amount _ d = ok d

    -- The minimum and the scale follow the swap amount.
    unfoldable pub update_swap_amount : UpdateBounty → ℕ → Draft → Result Draft
    update_swap_amount msg new d = do
      assert_only_swap_amount msg
      d1 ← rescale_minimum new d.bounty.minimum_receive_amount d
      d2 ← rescale_strategy new d1.bounty.swap_adjustment_strategy d1
      ok (
          changed d2 (record d2.bounty { swap_amount = new }) "swap_amount"
            (Value.of_amount d2.bounty.swap_amount) (Value.of_amount new))

    unfoldable pub update_destinations : Api → List Destination → Draft → Result Draft
    update_destinations api given d =
        let new = or_owner d.bounty.owner given in
        check_new_destinations api new
        >> ok (
            changed d (record d.bounty { destinations = new }) "destinations"
              (Value.of_destinations d.bounty.destinations) (Value.of_destinations new))

    module _ (cal : Calendar) (api : Api) (env : Env) where
      -- The changes in the order of the source.
      unfoldable pub apply_updates : UpdateBounty → Draft → Result Draft
      apply_updates msg d = do
        d1 ← if_some msg.swap_amount (update_swap_amount msg) d
        d2 ← if_some msg.label update_label d1
        d3 ← if_some msg.destinations (update_destinations api) d2
        d4 ← if_some msg.slippage_tolerance update_slippage_tolerance d3
        d5 ← if_some msg.minimum_receive_amount update_minimum_receive_amount d4
        d6 ← if_some msg.time_interval (update_time_interval cal env) d5
        if_some msg.swap_adjustment_strategy update_strategy d6

      unfoldable pub update_bounty_handler :
          Store → MessageInfo → ℕ → UpdateBounty → Result (Response × Store)
      update_bounty_handler s info bounty_id msg = do
        bounty ← get_bounty s bounty_id
        assert_sender_is_bounty_owner bounty.owner info.sender
        assert_bounty_is_not_cancelled bounty
        d ← apply_updates msg (draft_of s bounty)
        ok (saved env d)

-- handlers/update_swap_adjustment_handler.rs, with the hash of a strategy and its text
unfoldable pub update_swap_adjustment_handler :
    (SwapAdjustmentStrategy → ℕ)
    → (SwapAdjustmentStrategy → String)
    → Env
    → Store
    → MessageInfo
    → SwapAdjustmentStrategy
    → ℕ
    → Result (Response × Store)
update_swap_adjustment_handler hash debug env s info strategy value = do
  assert_sender_is_executor s env info.sender
  assert_swap_adjustment_value_is_valid debug strategy value
  ok (
    record {
      attributes = ("strategy", text (debug strategy)) ∷ ("value", decimal value) ∷ [];
      messages = [];
    },
    update_swap_adjustment hash s strategy value env.time,
  )
