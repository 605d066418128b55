-- ===== src/Dca/Execute/Handler.antt =====
-- Which executions `execute_trigger_handler` of contracts/dca/src/handlers/execute_trigger.rs accepts.
use bounties.Prelude.{
  ℕ, ◌≤◌, ◌≡◌, ◌⊎◌, inl, inr, refl, Bool, true, false, not, Option, none, some, List, [], arith,
  ltb, ◌==◌, Bool-cases,
}
use bounties.Shared.Result.{ContractError, custom_error, ok, fail_if, >>=-eq-ok, or_err-eq-ok}
use bounties.Shared.Arith.{Arith}
use bounties.Shared.Coin.{Coin}
use bounties.Shared.Chain.{Api, Balances, Binary, Body, Env, Response, SubMsg}
use bounties.Shared.Storage.{save, remove}
use bounties.Dca.Types.{
  Bounty, BountyStatus, Config, TriggerConfiguration, SwapAdjustmentStrategy, is_cancelled,
  is_scheduled,
}
use bounties.Dca.Store.{Store, get_config, get_bounty, bounty_data, update_bounty, delete_trigger}
use bounties.Dca.Time.{Calendar}
use bounties.Dca.Validation.Access.{assert_contract_is_not_paused, assert_target_time_is_in_past}
use bounties.Dca.Exchange.{Exchange}
use bounties.Dca.Execute.{
  denoms, start, assert_not_cancelled, order_filled, trigger_reached, execute_trigger_handler,
}
use bounties.Dca.Execute.Steps.{IsExecuted, execute_started_lem}

fail_if-ok : (b : Bool) (e : ContractError) (p : Unit) → fail_if b e ≡ ok p → b ≡ false
fail_if-ok true e p h = cc
fail_if-ok false e p h = refl

-- A running contract, with its configuration.
pub record IsRunning (s : Store) : Type 0 where
  pub config : Config
  pub loaded : s.config ≡ some config
  pub unpaused : config.paused ≡ false

pub running_lem : (s : Store) (p : Unit) → assert_contract_is_not_paused s ≡ ok p → IsRunning s
unfolding assert_contract_is_not_paused get_config
running_lem s p h =
    let (config, e, h1) = >>=-eq-ok (get_config s) _ h in
    record {
      config = config;
      loaded = or_err-eq-ok s.config _ config e;
      unpaused = fail_if-ok config.paused _ p h1;
    }

-- The trigger's time has come, or its order is filled.
abbrev pub IsReached : Exchange → Env → Store → Bounty → Type 0
IsReached x env s b =
    ((t : ℕ) × (b.trigger ≡ some (TriggerConfiguration.time t)) × (t ≤ env.time))
    ⊎ ((target order_idx : ℕ) × (config : Config) × (remaining : Coin) × (b.trigger
          ≡ some (TriggerConfiguration.price target order_idx))
        × (s.config ≡ some config)
        × (x.get_order config.exchange_contract_address order_idx (denoms b) ≡ ok remaining)
        × (remaining.amount ≡ 0))

reached_lem :
    (x : Exchange) (env : Env) (s : Store) (b : Bounty) (trigger : Option TriggerConfiguration)
    (msgs : List SubMsg)
    → b.trigger ≡ trigger
    → trigger_reached x env s b trigger ≡ ok msgs
    → IsReached x env s b
unfolding trigger_reached order_filled get_config assert_target_time_is_in_past
reached_lem x env s b none msgs e h = cc
reached_lem x env s b (some (TriggerConfiguration.time t)) msgs e h =
    let (p, past, _) = >>=-eq-ok (assert_target_time_is_in_past env.time t) _ h in
    let early = fail_if-ok (ltb env.time t) _ p past in inl (t, e, ground arith)
reached_lem x env s b (some (TriggerConfiguration.price target order_idx)) msgs e h =
    let (config, loaded, h1) = >>=-eq-ok (get_config s) _ h in
    let (remaining, asked, h2) =
      >>=-eq-ok (x.get_order config.exchange_contract_address order_idx (denoms b)) _ h1 in
    let (p, filled, _) =
      >>=-eq-ok
        (fail_if (not (remaining.amount == 0)) (custom_error "target price has not been met" [])) _
        h2 in
    let empty = fail_if-ok (not (remaining.amount == 0)) _ p filled in
    inr (
      target,
      order_idx,
      config,
      remaining,
      e,
      or_err-eq-ok s.config _ config loaded,
      asked,
      ground arith,
    )
reached_lem x env s b (some (TriggerConfiguration.escrow_reject d)) msgs e h = cc
reached_lem x env s b (some (TriggerConfiguration.escrow_accept d)) msgs e h = cc

-- The bounty, active where it was scheduled, and the store without its trigger.
pub record IsStarted (env : Env) (s : Store) (b b' : Bounty) (s' : Store) : Type 0 where
  pub status : BountyStatus
  pub started_at : Option ℕ
  pub same : b' ≡ record b { status = status; started_at = started_at }
  pub since : (started_at ≡ b.started_at) ⊎ (started_at ≡ some env.time)
  pub stored : (s'.bounties ≡ s.bounties) ⊎ (s'.bounties ≡ save b'.id (bounty_data b') s.bounties)
  pub triggers : s'.triggers ≡ remove b.id s.triggers
  pub config : s'.config ≡ s.config

start_lem :
    (env : Env) (s : Store) (b : Bounty)
    → IsStarted env s b
        (start env (delete_trigger s b.id) b).0
        (start env (delete_trigger s b.id) b).1
unfolding start delete_trigger update_bounty
start_lem env s b = elim (Bool-cases (is_scheduled b)) [
  | inl scheduled ↦ rw scheduled (record {
    status = BountyStatus.active;
    started_at = some env.time;
    same = refl;
    since = inr refl;
    stored = inr refl;
    triggers = refl;
    config = refl;
  })
  | inr begun ↦ rw begun (record {
    status = b.status;
    started_at = b.started_at;
    same = refl;
    since = inl refl;
    stored = inl refl;
    triggers = refl;
    config = refl;
  })
]

module _ ⦃m : Arith⦄ (cal : Calendar) (api : Api) (q : Balances) (x : Exchange)
    (hash : SwapAdjustmentStrategy → ℕ) (to_json_binary : Body → Binary) (env : Env) where
  pub record IsTriggered (s : Store) (id : ℕ) (r : Response) (s' : Store) : Type 0 where
    pub running : IsRunning s
    pub bounty : Bounty
    pub found : get_bounty s id ≡ ok bounty
    pub uncancelled : is_cancelled bounty ≡ false
    pub reached : IsReached x env s bounty
    pub msgs : List SubMsg
    pub started : Bounty
    pub between : Store
    pub begun : IsStarted env s bounty started between
    pub executed : IsExecuted cal api q x hash to_json_binary env between started msgs r s'

  -- An execution is accepted only while the contract is running, for a bounty that is stored and
  -- not cancelled, and whose trigger's time has come, or whose limit order is filled. It is then
  -- the execution of the started bounty.
  pub execute_trigger_lem :
      (s : Store) (id : ℕ) (route : Option Binary) (r : Response) (s' : Store)
      → execute_trigger_handler cal api q x hash to_json_binary env s id route ≡ ok (r, s')
      → IsTriggered s id r s'
  unfolding execute_trigger_handler assert_not_cancelled
  execute_trigger_lem s id route r s' h =
      let (p, unpaused, h1) = >>=-eq-ok (assert_contract_is_not_paused s) _ h in
      let (bounty, found, h2) = >>=-eq-ok (get_bounty s id) _ h1 in
      let (p2, uncancelled, h3) = >>=-eq-ok (assert_not_cancelled bounty) _ h2 in
      let (msgs, reached, h4) = >>=-eq-ok (trigger_reached x env s bounty bounty.trigger) _ h3 in
      record {
        running = running_lem s p unpaused;
        bounty = bounty;
        found = found;
        uncancelled = fail_if-ok (is_cancelled bounty) _ p2 uncancelled;
        reached = reached_lem x env s bounty bounty.trigger msgs refl reached;
        msgs = msgs;
        started = (start env (delete_trigger s bounty.id) bounty).0;
        between = (start env (delete_trigger s bounty.id) bounty).1;
        begun = start_lem env s bounty;
        executed = execute_started_lem cal api q x hash to_json_binary env _ _ route msgs r s' h4;
      }
