-- ===== src/Dca/Execute/Steps.antt =====
-- What contracts/dca/src/handlers/execute_trigger.rs asks of a bounty before it executes it, and
-- what it changes.
use bounties.Prelude.{
  ℕ, ◌≡◌, ◌⊎◌, inl, inr, refl, true, false, Option, none, some, List, arith, Bool-cases,
}
use bounties.Shared.Result.{panic, ok, or_err, ◌>>=◌, >>=-eq-ok}
use bounties.Shared.Arith.{Arith}
use bounties.Shared.Coin.{Coin}
use bounties.Shared.Chain.{Api, Balances, Binary, Body, Env, Attribute, Response, SubMsg}
use bounties.Shared.Storage.{save}
use bounties.Dca.Types.{
  Bounty, Config, TriggerConfiguration, SwapAdjustmentStrategy, bounty_execution_triggered,
  get_swap_denom,
}
use bounties.Dca.Store.{Store, get_config, create_event, save_trigger}
use bounties.Dca.Time.{Calendar, get_next_target_time}
use bounties.Dca.Exchange.{Exchange}
use bounties.Dca.Swaps.{get_swap_amount}
use bounties.Dca.Simulation.Accounts.{IsSimulated, unchanged, simulate_lem}
use bounties.Dca.Execute.{
  choose_route, simulate_if_weighted, should_execute_again, save_next_trigger, finished,
  execute_or_finish, execute_started,
}
use bounties.Dca.Execute.Swap.{IsKept, IsWithinLimits, execute_swap_lem}

module _ ⦃m : Arith⦄ (x : Exchange) (env : Env) where
  simulate_if_weighted_lem :
      (s : Store) (b : Bounty) (twap_price : ℕ) (b' : Bounty) (attributes : List Attribute)
      (s' : Store)
      → simulate_if_weighted x env s b twap_price ≡ ok (b', attributes, s')
      → IsSimulated s b b' s'
  unfolding simulate_if_weighted
  simulate_if_weighted_lem s b twap_price b' attributes s' h =
      ground (arith, simulate_lem x env s b twap_price b' attributes s', unchanged s b b' s')

-- The start of a bounty for its schedule, or the present.
abbrev pub or_now : Option ℕ → ℕ → ℕ
or_now started_at now = elim started_at [ none ↦ now | some t ↦ t ]

abbrev pub started_or : Bounty → ℕ → ℕ
started_or b now = or_now b.started_at now

module _ (cal : Calendar) (env : Env) where
  -- The trigger that the bounty is left with.
  pub record IsNext (b : Bounty) (s s' : Store) : Type 0 where
    pub target_time : ℕ
    pub computed :
        get_next_target_time cal env.time (started_or b env.time) b.time_interval ≡ some target_time
    pub saved :
        s'.triggers
        ≡ save b.id
            (record { bounty_id = b.id; configuration = TriggerConfiguration.time target_time })
            s.triggers
    pub bounties : s'.bounties ≡ s.bounties
    pub config : s'.config ≡ s.config

  pub save_next_trigger_lem :
      (s : Store) (b : Bounty) (s' : Store) → save_next_trigger cal env s b ≡ ok s' → IsNext b s s'
  unfolding save_next_trigger save_trigger
  save_next_trigger_lem s b s' h = next_saved _ refl h
    where
      next_saved :
          (o : Option ℕ)
          → get_next_target_time cal env.time (started_or b env.time) b.time_interval ≡ o
          → (or_err o panic >>= λ target_time. ok (
              save_trigger s (record {
                bounty_id = b.id;
                configuration = TriggerConfiguration.time target_time;
              })))
            ≡ ok s'
          → IsNext b s s'
      next_saved none e g = cc
      next_saved (some t) e g = record {
        target_time = t;
        computed = e;
        saved = ground arith;
        bounties = ground arith;
        config = ground arith;
      }

module _ ⦃m : Arith⦄ (cal : Calendar) (api : Api) (q : Balances) (x : Exchange)
    (hash : SwapAdjustmentStrategy → ℕ) (to_json_binary : Body → Binary) (env : Env) where
  -- The bounty goes on: it has its next trigger, and a swap is sent or not.
  pub record IsContinued (b : Bounty) (s s' : Store) (msgs : List SubMsg) (r : Response)
      : Type 0 where
    pub config : Config
    pub swap : Coin
    pub route : Option Binary
    pub twap_price : ℕ
    pub between : Store
    pub again : should_execute_again b ≡ true
    pub next : IsNext cal env b s between
    pub kept : IsKept between s'
    pub within : IsWithinLimits api q x to_json_binary env b config swap route twap_price msgs r

  -- The bounty is not executed again.
  pub record IsFinished (b : Bounty) (s s' : Store) (msgs : List SubMsg) (r : Response)
      : Type 0 where
    pub attributes : List Attribute
    pub over : should_execute_again b ≡ false
    pub response : (r, s') ≡ finished env s b attributes msgs

  -- What an accepted execution of a started bounty has done.
  pub record IsExecuted (s : Store) (b : Bounty) (msgs : List SubMsg) (r : Response) (s' : Store)
      : Type 0 where
    pub swap : Coin
    pub amount : get_swap_amount x hash s env b ≡ ok swap
    pub after : Bounty
    pub between : Store
    pub simulated : IsSimulated s b after between
    pub outcome : IsContinued after between s' msgs r ⊎ IsFinished after between s' msgs r

  outcome_lem :
      (s : Store) (b : Bounty) (config : Config) (swap : Coin) (route : Option Binary)
      (twap_price : ℕ) (attributes : List Attribute) (msgs : List SubMsg) (r : Response)
      (s' : Store)
      → execute_or_finish cal api q x hash to_json_binary env s b config swap route twap_price
          attributes msgs
        ≡ ok (r, s')
      → IsContinued b s s' msgs r ⊎ IsFinished b s s' msgs r
  unfolding execute_or_finish
  outcome_lem s b config swap route twap_price attributes msgs r s' h =
      elim (Bool-cases (should_execute_again b)) [
        | inl again ↦
            let (between, e, h1) = >>=-eq-ok (save_next_trigger cal env s b) _ (rw again at h) in
            let (kept, within) =
              execute_swap_lem api q x to_json_binary env between b config swap route twap_price
                attributes msgs r s' h1 in
            inl (record {
              config = config;
              swap = swap;
              route = route;
              twap_price = twap_price;
              between = between;
              again = again;
              next = save_next_trigger_lem cal env s b between e;
              kept = kept;
              within = within;
            })
        | inr over ↦
            inr (record { attributes = attributes; over = over; response = ended (rw over at h) })
      ]
    where
      ended :
          ok (finished env s b attributes msgs) ≡ ok (r, s')
          → (r, s') ≡ finished env s b attributes msgs
      ended e = cc

  pub execute_started_lem :
      (s : Store) (b : Bounty) (route : Option Binary) (msgs : List SubMsg) (r : Response)
      (s' : Store)
      → execute_started cal api q x hash to_json_binary env s b route msgs ≡ ok (r, s')
      → IsExecuted s b msgs r s'
  unfolding execute_started create_event
  execute_started_lem s b route msgs r s' h =
      let (config, _, h1) = >>=-eq-ok (get_config s) _ h in
      let (swap, amount, h2) = >>=-eq-ok (get_swap_amount x hash s env b) _ h1 in
      let (chosen, _, h3) = >>=-eq-ok (choose_route x config b swap route) _ h2 in
      let (twap_price, _, h4) =
        >>=-eq-ok
          (x.get_twap_to_now config.exchange_contract_address (get_swap_denom b) b.target_denom
            config.twap_period chosen)
          _ h3 in
      let (done, e5, h5) =
        >>=-eq-ok (simulate_if_weighted x env (triggered twap_price) b twap_price) _ h4 in
      executed config swap chosen twap_price _ amount done.0 done.1 done.2
        (simulate_if_weighted_lem x env (triggered twap_price) b twap_price done.0 done.1 done.2 e5)
        h5
    where
      triggered : ℕ → Store
      triggered twap_price =
          create_event s env b.id
            (bounty_execution_triggered b.target_denom (get_swap_denom b) twap_price)

      executed :
          (config : Config) (swap : Coin) (chosen : Option Binary) (twap_price : ℕ)
          (attributes : List Attribute)
          → get_swap_amount x hash s env b ≡ ok swap
          → (after : Bounty) (more : List Attribute) (between : Store)
          → IsSimulated (triggered twap_price) b after between
          → execute_or_finish cal api q x hash to_json_binary env between after config swap chosen
              twap_price attributes msgs
            ≡ ok (r, s')
          → IsExecuted s b msgs r s'
      executed config swap chosen twap_price attributes amount after more between sim e = record {
        swap = swap;
        amount = amount;
        after = after;
        between = between;
        simulated = record {
          strategy = sim.strategy;
          same = sim.same;
          stored = sim.stored;
          triggers = sim.triggers;
          config = sim.config;
          within = sim.within;
        };
        outcome = outcome_lem between after config swap chosen twap_price attributes msgs r s' e;
      }
