-- ===== src/Dca/Execute/Answers.antt =====
-- What each step of contracts/dca/src/handlers/execute_trigger.rs gives for an active bounty.
use bounties.Prelude.{
  ℕ, ◌+◌, ◌*◌, ◌/◌, ◌<◌, ◌≤◌, ◌≡◌, inl, inr, refl, ◌∙◌, true, false, none, some, List, [], arith,
  min, ltb, ◌==◌, Bool-cases,
}
use bounties.Shared.Result.{Result, ok}
use bounties.Shared.Arith.{Arith, fits, uint128_limit}
use bounties.Shared.Coin.{Coin}
use bounties.Shared.Chain.{Api, Balances, Binary, Body, Env, Attribute, Response, SubMsg}
use bounties.Shared.Cw20.{query_balance, into_execute_msg}
use bounties.Dca.Types.{
  Bounty, BountyStatus, Config, TriggerConfiguration, SwapAdjustmentStrategy, TimeInterval,
  get_swap_denom, is_active, is_inactive, is_cancelled, is_scheduled,
}
use bounties.Dca.Store.{Store, get_config, save_trigger}
use bounties.Dca.Time.{Calendar, get_next_target_time}
use bounties.Dca.Time.Schedule.{next_target_fixed, next_target_ahead}
use bounties.Dca.Time.Monthly.{next_target_monthly}
use bounties.Dca.Validation.Access.{assert_contract_is_not_paused, assert_target_time_is_in_past}
use bounties.Dca.Exchange.{Exchange, get_slippage}
use bounties.Dca.Swaps.{get_swap_amount, swap_factor, price_threshold_is_exceeded}
use bounties.Dca.Execute.{
  trigger_reached, start, is_risk_weighted, should_execute_again, save_next_trigger,
  adjusted_minimum, send_swap, within_slippage, execute_swap, assert_not_cancelled,
}
use bounties.Dca.Execute.Steps.{started_or}
use bounties.Dca.Execute.Handler.{IsRunning}
use bounties.Dca.Execute.Again.{IsInterval, IsRecent, IsTimely}

next_exists :
    (cal : Calendar) (env : Env) (start : ℕ) (i : TimeInterval)
    → IsInterval i
    → IsRecent env start
    → IsTimely env start i
    → (t : ℕ) × (get_next_target_time cal env.time start i ≡ some t) × (env.time < t)
next_exists cal env start i (inl q) recent timely =
    let (now, from) = timely.months q in
    let (t, _, e, lt, _, _, _) = next_target_monthly cal env.time start now from in (t, rw q e, lt)
next_exists cal env start i (inr (d, f, pos)) recent timely =
    let (now, from) = timely.fixed d f in
    let near = timely.near in
    elim (Bool-cases (ltb env.time start)) [
      | inl ahead ↦
          let (_, t, e, _, le, _) =
            next_target_ahead cal env.time start d i f pos (ground arith) (omega arith) from in
          (t, e, omega arith)
      | inr behind ↦
          let (n, e, lt, _) =
            next_target_fixed cal env.time start d i f pos (ground arith) (ground arith) now in
          (start + d * n, e, lt)
    ]

-- An active bounty that swaps a fixed amount without a minimum.
pub record IsPlain (b : Bounty) : Type 0 where
  pub active : b.status ≡ BountyStatus.active
  pub fixed : b.swap_adjustment_strategy ≡ none
  pub unlimited : b.minimum_receive_amount ≡ none
  pub small : b.swap_amount < uint128_limit

-- The coin that it swaps.
abbrev pub swap_of : Bounty → Coin
swap_of b = record { amount = min b.swap_amount b.balance.amount; denom = b.balance.denom }

not_inactive : (b : Bounty) → b.status ≡ BountyStatus.active → is_inactive b ≡ false
unfolding is_inactive
not_inactive b h = rw h refl

pub not_cancelled : (b : Bounty) → b.status ≡ BountyStatus.active → assert_not_cancelled b ≡ ok tt
unfolding assert_not_cancelled is_cancelled
not_cancelled b h = rw h refl

pub goes_on : (b : Bounty) → b.status ≡ BountyStatus.active → should_execute_again b ≡ true
unfolding should_execute_again is_active
goes_on b h = rw h refl

no_threshold :
    (b : Bounty) (price : ℕ)
    → b.minimum_receive_amount ≡ none
    → price_threshold_is_exceeded b price ≡ ok false
unfolding price_threshold_is_exceeded
no_threshold b price h = rw h refl

pub not_weighted : (b : Bounty) → b.swap_adjustment_strategy ≡ none → is_risk_weighted b ≡ false
not_weighted b h = rw h refl

pub begun :
    (env : Env) (s : Store) (b : Bounty) → b.status ≡ BountyStatus.active → start env s b ≡ (b, s)
unfolding start is_scheduled
begun env s b h = let still : is_scheduled b ≡ false = rw h refl in rw still refl

pub running_ok : (s : Store) → IsRunning s → assert_contract_is_not_paused s ≡ ok tt
unfolding assert_contract_is_not_paused get_config
running_ok s running = rw (running.loaded, running.unpaused) refl

pub config_ok : (s : Store) (config : Config) → s.config ≡ some config → get_config s ≡ ok config
unfolding get_config
config_ok s config h = rw h refl

pub reached_ok :
    (x : Exchange) (env : Env) (s : Store) (b : Bounty) (t : ℕ)
    → b.trigger ≡ some (TriggerConfiguration.time t)
    → t ≤ env.time
    → trigger_reached x env s b b.trigger ≡ ok []
unfolding trigger_reached assert_target_time_is_in_past
reached_ok x env s b t e le = let past : ltb env.time t ≡ false = ground arith in rw (e, past) refl

pub saved_next :
    (cal : Calendar) (env : Env) (s : Store) (b : Bounty)
    → IsInterval b.time_interval
    → IsRecent env (started_or b env.time)
    → IsTimely env (started_or b env.time) b.time_interval
    → (t : ℕ) × (env.time < t)
      × (save_next_trigger cal env s b
          ≡ ok (
              save_trigger s
                (record { bounty_id = b.id; configuration = TriggerConfiguration.time t })))
unfolding save_next_trigger
saved_next cal env s b interval recent timely =
    let (t, e, lt) =
      next_exists cal env (started_or b env.time) b.time_interval interval recent timely in
    (t, lt, rw e refl)

pub amount_ok :
    ⦃m : Arith⦄ (x : Exchange) (hash : SwapAdjustmentStrategy → ℕ) (s : Store) (env : Env)
    (b : Bounty)
    → b.swap_adjustment_strategy ≡ none
    → b.swap_amount < uint128_limit
    → get_swap_amount x hash s env b ≡ ok (swap_of b)
unfolding get_swap_amount swap_factor get_swap_denom
amount_ok ⦃m⦄ x hash s env b none_set small =
    let whole : m.multiply_ratio b.swap_amount 1000000000000000000 1000000000000000000
        ≡ some b.swap_amount =
      m.multiply_ratio_lem b.swap_amount 1000000000000000000 1000000000000000000 (omega arith)
      ∙ fits_whole b.swap_amount small in
    rw (none_set, whole) refl
  where
    fits_whole :
        (n : ℕ) → n < uint128_limit → fits (n * 1000000000000000000 / 1000000000000000000) ≡ some n
    fits_whole n h =
        let e : n * 1000000000000000000 / 1000000000000000000 ≡ n = omega arith in
        rw e (ground arith)

module _ ⦃m : Arith⦄ (api : Api) (q : Balances) (x : Exchange) (to_json_binary : Body → Binary)
    (env : Env) where
  -- The chain and the exchange answer what is asked for the bounty.
  pub record IsAnswered (b : Bounty) (config : Config) : Type 0 where
    pub price : ℕ
    pub slippage : ℕ
    pub have : Coin
    pub received : Coin
    pub priced :
        x.get_twap_to_now config.exchange_contract_address b.balance.denom b.target_denom
          config.twap_period b.route
        ≡ ok price
    pub estimated :
        get_slippage x config.exchange_contract_address (swap_of b) b.target_denom price b.route
        ≡ ok slippage
    pub swap_balance : query_balance api q b.balance.denom env.contract ≡ ok have
    pub target_balance : query_balance api q b.target_denom env.contract ≡ ok received

  abbrev pub Accepts : Result (Response × Store) → Type 0
  Accepts result = (r : Response) × (s' : Store) × (result ≡ ok (r, s'))

  send_total :
      (s : Store) (b : Bounty) (config : Config) (attributes : List Attribute) (msgs : List SubMsg)
      → IsPlain b
      → (answers : IsAnswered b config)
      → Accepts (send_swap api q to_json_binary env s b config (swap_of b) b.route attributes msgs)
  unfolding send_swap adjusted_minimum into_execute_msg get_swap_denom
  send_total s b config attributes msgs plain answers =
      rw (answers.swap_balance, answers.target_balance, plain.unlimited) (_, _, refl)

  within_total :
      (s : Store) (b : Bounty) (config : Config) (attributes : List Attribute) (msgs : List SubMsg)
      → IsPlain b
      → (answers : IsAnswered b config)
      → Accepts (
          within_slippage api q x to_json_binary env s b config
            (swap_of b)
            b.route
            answers.price
            attributes
            msgs
            (ok answers.slippage))
  unfolding within_slippage
  within_total s b config attributes msgs plain answers =
      elim (Bool-cases (ltb b.slippage_tolerance answers.slippage)) [
        | inl over ↦ rw over (_, _, refl)
        | inr good ↦ rw good (send_total s b config attributes msgs plain answers)
      ]

  pub swap_total :
      (s : Store) (b : Bounty) (config : Config) (attributes : List Attribute) (msgs : List SubMsg)
      → IsPlain b
      → (answers : IsAnswered b config)
      → Accepts (
          execute_swap api q x to_json_binary env s b config
            (swap_of b)
            b.route
            answers.price
            attributes
            msgs)
  unfolding execute_swap
  swap_total s b config attributes msgs plain answers =
      let going = not_inactive b plain.active in
      let cheap = no_threshold b answers.price plain.unlimited in
      elim (Bool-cases ((swap_of b).amount == 0)) [
        | inl empty ↦ rw (going, empty) (_, _, refl)
        | inr positive ↦
            rw (going, positive, cheap, answers.estimated)
              (within_total s b config attributes msgs plain answers)
      ]
