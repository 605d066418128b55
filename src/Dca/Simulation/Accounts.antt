-- ===== src/Dca/Simulation/Accounts.antt =====
-- What a simulated execution of contracts/dca/src/helpers/vault.rs does to a bounty.
use bounties.Prelude.{
  ℕ, ◌+◌, ◌-◌, ◌≤◌, ◌≡◌, refl, String, Option, none, some, List, [], arith, ltb, ◌==◌, Bool-cases,
  ◌⊎◌, inl, inr,
}
use bounties.Shared.Result.{Result, ok, >>=-eq-ok}
use bounties.Shared.Arith.{Arith}
use bounties.Shared.Coin.{Coin, add_to}
use bounties.Shared.Coin.Laws.{add_to_amount}
use bounties.Shared.Chain.{Env, Attribute}
use bounties.Shared.Storage.{save}
use bounties.Dca.Types.{
  Bounty, PerformanceAssessmentStrategy, compare_to_standard_dca, get_swap_denom,
  ExecutionSkippedReason, price_threshold_exceeded, slippage_tolerance_exceeded,
}
use bounties.Dca.Store.{Store, get_config, update_bounty, bounty_data, create_event}
use bounties.Dca.Exchange.{Exchange, get_slippage, get_price}
use bounties.Dca.Swaps.{price_threshold_is_exceeded}
use bounties.Dca.Simulation.{
  Simulated, standard_swap_amount, assessed, recorded, skip_simulation, simulated_fee_rate,
  simulated_amounts, complete_simulation, simulate_swap, simulate_with,
  simulate_standard_dca_execution,
}

-- The accounts of the standard strategy never pass what was deposited.
abbrev pub IsWithin : ℕ → Option PerformanceAssessmentStrategy → Type 0
IsWithin deposited none = Unit
IsWithin deposited (some (compare_to_standard_dca swapped received)) = swapped.amount ≤ deposited

abbrev pub with_strategy : Bounty → Option PerformanceAssessmentStrategy → Bounty
with_strategy b strategy = record b { performance_assessment_strategy = strategy }

-- A bounty with other accounts of the standard strategy, in a store in which nothing else of the
-- bounties changed.
pub record IsSimulated (s : Store) (b b' : Bounty) (s' : Store) : Type 0 where
  pub strategy : Option PerformanceAssessmentStrategy
  pub same : b' ≡ with_strategy b strategy
  pub stored : (s'.bounties ≡ s.bounties) ⊎ (s'.bounties ≡ save b'.id (bounty_data b') s.bounties)
  pub triggers : s'.triggers ≡ s.triggers
  pub config : s'.config ≡ s.config
  pub within :
      IsWithin b.deposited_amount.amount b.performance_assessment_strategy
      → IsWithin b.deposited_amount.amount strategy

pub unchanged :
    (s : Store) (b b' : Bounty) (s' : Store)
    → b' ≡ b
    → s'.bounties ≡ s.bounties
    → s'.triggers ≡ s.triggers
    → s'.config ≡ s.config
    → IsSimulated s b b' s'
unchanged s b b' s' same stored triggers config = record {
  strategy = b.performance_assessment_strategy;
  same = same;
  stored = inl stored;
  triggers = triggers;
  config = config;
  within = λ h. h;
}

skipped :
    (s : Store) (env : Env) (b : Bounty) (reason : ExecutionSkippedReason) (attribute : String)
    (b' : Bounty) (attributes : List Attribute) (s' : Store)
    → ok (skip_simulation s env b reason attribute) ≡ ok (b', attributes, s')
    → IsSimulated s b b' s'
unfolding skip_simulation create_event
skipped s env b reason attribute b' attributes s' h =
    unchanged s b b' s' (ground arith) (ground arith) (ground arith) (ground arith)

recorded_lem :
    (env : Env) (s : Store) (b : Bounty) (old olds swapped received : Coin) (sent before fee : ℕ)
    (b' : Bounty) (attributes : List Attribute) (s' : Store)
    → b.performance_assessment_strategy ≡ some (compare_to_standard_dca old olds)
    → sent ≤ b.deposited_amount.amount - old.amount
    → swapped.amount ≡ old.amount + sent
    → ok (recorded env s b swapped received sent before fee) ≡ ok (b', attributes, s')
    → IsSimulated s b b' s'
unfolding recorded create_event update_bounty
recorded_lem env s b old olds swapped received sent before fee b' attributes s' e le total h =
    let same : b' ≡ assessed b swapped received = ground arith in
    let stored : s'.bounties ≡ save b.id (bounty_data (assessed b swapped received)) s.bounties =
      ground arith in
    record {
      strategy = some (compare_to_standard_dca swapped received);
      same = same;
      stored = inr (rw same stored);
      triggers = ground arith;
      config = ground arith;
      within = within;
    }
  where
    within :
        IsWithin b.deposited_amount.amount b.performance_assessment_strategy
        → swapped.amount ≤ b.deposited_amount.amount
    within h =
        let old_le : old.amount ≤ b.deposited_amount.amount = rw e at h in omega (arith, old_le)

abbrev still : Store → Bounty → Result Simulated
still s b = ok (b, [], s)

module _ ⦃m : Arith⦄ (x : Exchange) (env : Env) where
  complete_lem :
      (s : Store) (b : Bounty) (swapped received : Coin) (n price : ℕ) (b' : Bounty)
      (attributes : List Attribute) (s' : Store)
      → b.performance_assessment_strategy ≡ some (compare_to_standard_dca swapped received)
      → n ≤ b.deposited_amount.amount - swapped.amount
      → complete_simulation x env s b swapped received n price ≡ ok (b', attributes, s')
      → IsSimulated s b b' s'
  unfolding complete_simulation
  complete_lem s b swapped received n price b' attributes s' e le h =
      let (rate, _, h1) = >>=-eq-ok (simulated_fee_rate s b) _ h in
      let (amounts, _, h2) = >>=-eq-ok (simulated_amounts n price rate) _ h1 in
      let (swapped', e3, h3) = >>=-eq-ok (add_to swapped n) _ h2 in
      let (received', e4, h4) = >>=-eq-ok (add_to received amounts.2) _ h3 in
      recorded_lem env s b swapped received swapped' received' n amounts.0 amounts.1 b' attributes
        s' e le (add_to_amount swapped n swapped' e3).0 h4

  swap_lem :
      (s : Store) (b : Bounty) (swapped received : Coin) (n belief : ℕ) (b' : Bounty)
      (attributes : List Attribute) (s' : Store)
      → b.performance_assessment_strategy ≡ some (compare_to_standard_dca swapped received)
      → n ≤ b.deposited_amount.amount - swapped.amount
      → simulate_swap x env s b swapped received n belief ≡ ok (b', attributes, s')
      → IsSimulated s b b' s'
  unfolding simulate_swap
  swap_lem s b swapped received n belief b' attributes s' e le h =
      let (config, _, h1) = >>=-eq-ok (get_config s) _ h in
      let swap : Coin = record { amount = n; denom = get_swap_denom b } in
      let (price, _, h2) =
        >>=-eq-ok (get_price x s config.exchange_contract_address swap b.target_denom b.route) _
          h1 in
      let (exceeded, _, h3) = >>=-eq-ok (price_threshold_is_exceeded b belief) _ h2 in
      elim (Bool-cases exceeded) [
        | inl yes_exceeded ↦
            skipped s env b (price_threshold_exceeded belief) "price_threshold_exceeded" b'
              attributes s' (rw yes_exceeded at h3)
        | inr low ↦
            let (slippage, _, h4) =
              >>=-eq-ok
                (get_slippage x config.exchange_contract_address swap b.target_denom belief b.route)
                _ (rw low at h3) in
            elim (Bool-cases (ltb b.slippage_tolerance slippage)) [
              | inl over ↦
                  skipped s env b slippage_tolerance_exceeded "slippage_tolerance_exceeded" b'
                    attributes s' (rw over at h4)
              | inr good ↦
                  complete_lem s b swapped received n price b' attributes s' e le (rw good at h4)
            ]
      ]

  amount_le :
      (b : Bounty) (swapped : Coin)
      → standard_swap_amount b swapped ≤ b.deposited_amount.amount - swapped.amount
  unfolding standard_swap_amount
  amount_le b swapped = ground arith

  with_lem :
      (s : Store) (b : Bounty) (belief : ℕ) (strategy : Option PerformanceAssessmentStrategy)
      (b' : Bounty) (attributes : List Attribute) (s' : Store)
      → b.performance_assessment_strategy ≡ strategy
      → simulate_with x env s b belief strategy ≡ ok (b', attributes, s')
      → IsSimulated s b b' s'
  unfolding simulate_with
  with_lem s b belief none b' attributes s' e h =
      unchanged s b b' s' (ground arith) (ground arith) (ground arith) (ground arith)
  with_lem s b belief (some (compare_to_standard_dca swapped received)) b' attributes s' e h =
      elim (Bool-cases (standard_swap_amount b swapped == 0)) [
        | inl empty ↦
            let same : still s b ≡ ok (b', attributes, s') = rw empty at h in
            unchanged s b b' s' (ground arith) (ground arith) (ground arith) (ground arith)
        | inr some_left ↦
            swap_lem s b swapped received (standard_swap_amount b swapped) belief b' attributes s' e
              (amount_le b swapped) (rw some_left at h)
      ]

  -- A simulated execution changes a bounty at most in the accounts of the standard strategy, and
  -- these stay within what was deposited.
  pub simulate_lem :
      (s : Store) (b : Bounty) (belief : ℕ) (b' : Bounty) (attributes : List Attribute) (s' : Store)
      → simulate_standard_dca_execution x env s b belief ≡ ok (b', attributes, s')
      → IsSimulated s b b' s'
  unfolding simulate_standard_dca_execution
  simulate_lem s b belief b' attributes s' h =
      with_lem s b belief b.performance_assessment_strategy b' attributes s' refl h
