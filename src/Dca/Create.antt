-- ===== src/Dca/Create.antt =====
-- contracts/dca/src/handlers/create_vault.rs: a new bounty, with its deposit.
-- The handler reads three variables that it does not declare; they are arguments here:
-- `target_receive_amount`, `swap_amount` and, as a test on it, `bounty_assessment_strategy`. What a
-- bounty holds beyond the fields of the builder is empty.
pub mod Terms
pub mod Attached
pub mod Stored
use bounties.Prelude.{
  ℕ, ◌-◌, String, Bool, true, false, Option, none, some, List, [], ◌∷◌, ltb, if◌then◌else◌,
}
use bounties.Shared.Result.{
  ContractError, custom_error, text, number, coin, panic, Check, Result, ok, err, fail_if, or_err,
  ◌>>=◌, ◌>>◌,
}
use bounties.Shared.Arith.{Arith, percent}
use bounties.Shared.Coin.{Coin}
use bounties.Shared.Chain.{
  Addr, Api, Binary, Body, Env, MessageInfo, Response, SubMsg, sub_msg, reply_on_success,
  wasm_execute,
}
use bounties.Dca.Types.{
  Bounty, BountyStatus, Config, Destination, TimeInterval, TriggerConfiguration,
  bounty_funds_deposited,
}
use bounties.Dca.Store.{Store, get_config, save_bounty, update_bounty, create_event, save_trigger}
use bounties.Dca.Validation.Access.{
  assert_contract_is_not_paused, assert_target_start_time_is_not_in_the_past,
}
use bounties.Dca.Validation.Addresses.{
  Callback, assert_address_is_valid, assert_destination_callback_addresses_are_valid,
  assert_contract_destination_callbacks_are_valid,
}
use bounties.Dca.Validation.Values.{
  assert_destinations_limit_is_not_breached, assert_time_interval_is_valid,
  assert_label_is_no_longer_than_100_characters,
  assert_slippage_tolerance_is_less_than_or_equal_to_one,
  assert_no_destination_allocations_are_zero, assert_destination_allocations_add_up_to_one,
}
use bounties.Dca.Validation.Strategies.{assert_route_exists_for_denoms}
use bounties.Dca.Exchange.{Exchange}
use bounties.Dca.Deposit.{only_asset}

abbrev pub after_limit_order_placed_reply_id : ℕ
after_limit_order_placed_reply_id = 1

abbrev pub two_microns : ℕ
two_microns = 2

-- The message, with the undeclared variables.
pub record CreateBounty : Type 0 where
  pub owner : Addr
  pub label : Option String
  pub destinations : List Destination
  pub target_denom : String
  pub route : Option Binary
  pub slippage_tolerance : Option ℕ
  pub time_interval : TimeInterval
  pub target_start_time_utc_seconds : Option ℕ
  pub target_receive_amount : Option ℕ
  pub swap_amount : ℕ
  pub is_assessed : Bool

abbrev pub is_some {ℓ} : {A : Type ℓ} → Option A → Bool
is_some none = false
is_some (some _) = true

-- `if let Some(x) = option { check(x)? }`
abbrev pub check_some {ℓ} : {A : Type ℓ} → Option A → (A → Check) → Check
check_some none check = ok tt
check_some (some a) check = check a

abbrev pub or_default {ℓ} : {A : Type ℓ} → Option A → A → A
or_default none a = a
or_default (some b) a = b

-- A bounty that names no destination pays its owner.
unfoldable pub or_owner : Addr → List Destination → List Destination
or_owner owner [] = record { allocation = percent 100; address = owner; msg = none } ∷ []
or_owner owner (d ∷ ds) = d ∷ ds

-- `BountyBuilder`; its number and its trigger are not yet there.
unfoldable pub builder : Env → Config → CreateBounty → List Destination → Coin → Bounty
builder env config msg destinations funds = record {
  id = 0;
  created_at = env.time;
  started_at = none;
  owner = msg.owner;
  label = msg.label;
  destinations = destinations;
  status = BountyStatus.scheduled;
  balance = funds;
  target_denom = msg.target_denom;
  swap_amount = msg.swap_amount;
  route = msg.route;
  slippage_tolerance = or_default msg.slippage_tolerance config.default_slippage_tolerance;
  minimum_receive_amount = none;
  time_interval = msg.time_interval;
  escrow_level = if msg.is_assessed then config.risk_weighted_average_escrow_level else 0;
  deposited_amount = funds;
  swapped_amount = record { amount = 0; denom = funds.denom };
  received_amount = record { amount = 0; denom = msg.target_denom };
  escrowed_amount = record { amount = 0; denom = msg.target_denom };
  performance_assessment_strategy = none;
  swap_adjustment_strategy = none;
  trigger = none;
}

-- The attributes of the response, and the messages.
abbrev pub created : Bounty → List SubMsg → Response
created b msgs = record {
  attributes =
      ("create_bounty", text "true")
      ∷ ("bounty_id", number b.id)
      ∷ ("owner", text b.owner)
      ∷ ("deposited_amount", coin b.balance.amount b.balance.denom)
      ∷ [];
  messages = msgs;
}

-- A trigger by time; a bounty without a start time is executed at once.
unfoldable pub start_by_time : Env → Store → Bounty → Option ℕ → Response × Store
start_by_time env s b target_time = (
  created b (elim target_time [
    | none ↦ sub_msg (wasm_execute env.contract (Body.execute_trigger b.id b.route) []) ∷ []
    | some _ ↦ []
  ]),
  save_trigger s (record {
    bounty_id = b.id;
    configuration = TriggerConfiguration.time (or_default target_time env.time);
  }),
)

module _ ⦃m : Arith⦄ where
  -- `amount - TWO_MICRONS`
  unfoldable pub without_microns : Coin → Result Coin
  without_microns c = do
    amount ← or_err (m.sub c.amount two_microns) panic
    ok (record { amount = amount; denom = c.denom })

  -- What the event says was deposited.
  unfoldable pub event_amount : Coin → Option ℕ → Result Coin
  event_amount funds target_receive_amount =
      if is_some target_receive_amount then without_microns funds else ok funds

  -- A limit order of two microns stands for the trigger by price.
  unfoldable pub start_by_price : Config → Store → Bounty → ℕ → ℕ → Result (Response × Store)
  start_by_price config s b swap_amount target_receive_amount = do
    deposited_amount ← without_microns b.deposited_amount
    balance ← without_microns b.balance
    target_price ← or_err (m.from_ratio swap_amount target_receive_amount) panic
    ok (
      created b (
          reply_on_success
            (wasm_execute config.exchange_contract_address
              (Body.submit_order target_price b.target_denom)
              (record { amount = two_microns; denom = b.balance.denom } ∷ []))
            after_limit_order_placed_reply_id
          ∷ []),
      update_bounty s (record b { deposited_amount = deposited_amount; balance = balance }),
    )

  unfoldable pub attach_trigger :
      Env → Config → Store → Bounty → ℕ → Option ℕ → Option ℕ → Result (Response × Store)
  attach_trigger env config s b swap_amount target_time none =
      ok (start_by_time env s b target_time)
  attach_trigger env config s b swap_amount none (some target_receive_amount) =
      start_by_price config s b swap_amount target_receive_amount
  attach_trigger env config s b swap_amount (some _) (some _) =
      err (custom_error "cannot provide both a target_start_time_utc_seconds and a target_price" [])

  module _ (api : Api) (x : Exchange) (from_json : Binary → Option Callback) (env : Env) where
    unfoldable pub check_destinations : List Destination → Check
    check_destinations destinations = do
      assert_destination_callback_addresses_are_valid api destinations
      assert_contract_destination_callbacks_are_valid from_json destinations env.contract
      assert_no_destination_allocations_are_zero destinations
      assert_destination_allocations_add_up_to_one destinations

    -- The checks between the deposit and the destinations.
    unfoldable pub check_terms : Store → CreateBounty → Coin → Check
    check_terms s msg funds = do
      assert_destinations_limit_is_not_breached msg.destinations
      assert_time_interval_is_valid msg.time_interval
      assert_route_exists_for_denoms x s funds.denom msg.target_denom msg.route
      check_some msg.label assert_label_is_no_longer_than_100_characters
      check_some msg.slippage_tolerance assert_slippage_tolerance_is_less_than_or_equal_to_one
      check_some msg.target_start_time_utc_seconds
          (λ t. assert_target_start_time_is_not_in_the_past env.time t)

    unfoldable pub save_created :
        Store → Config → CreateBounty → List Destination → Coin → Result (Response × Store)
    save_created s config msg destinations funds =
        let (b, s1) = save_bounty s (builder env config msg destinations funds) in
        event_amount funds msg.target_receive_amount >>= λ deposited.
        attach_trigger env config
          (create_event (record s1 { bounty_id_cache = some b.id }) env b.id
            (bounty_funds_deposited deposited))
          b msg.swap_amount msg.target_start_time_utc_seconds msg.target_receive_amount

    unfoldable pub create_bounty_handler :
        Store → MessageInfo → CreateBounty → Result (Response × Store)
    create_bounty_handler s info msg = do
      assert_contract_is_not_paused s
      assert_address_is_valid api msg.owner "owner"
      funds ← only_asset info.funds
      check_terms s msg funds
      check_destinations (or_owner msg.owner msg.destinations)
      config ← get_config s
      save_created s config msg (or_owner msg.owner msg.destinations) funds
