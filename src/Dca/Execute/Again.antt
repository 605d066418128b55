-- ===== src/Dca/Execute/Again.antt =====
-- The trigger that an execution of contracts/dca/src/handlers/execute_trigger.rs leaves, and a
-- second execution.
use bounties.Prelude.{ℕ, ◌+◌, ◌<◌, ◌≤◌, ◌≡◌, ◌⊎◌, inl, inr, ap, sym, ◌∙◌, Option, none, some, arith}
use bounties.Shared.Result.{ok, or_err, >>=-eq-ok, or_err-eq-ok}
use bounties.Shared.Arith.{Arith}
use bounties.Shared.Chain.{Api, Balances, Binary, Body, Env, Response}
use bounties.Shared.Storage.{Storage, save, remove, may_load}
use bounties.Shared.Storage.Laws.{may_load-save, may_load-remove}
use bounties.Dca.Types.{
  Bounty, BountyStatus, Trigger, TriggerConfiguration, SwapAdjustmentStrategy, TimeInterval,
  monthly, PerformanceAssessmentStrategy,
}
use bounties.Dca.Store.{Store, get_bounty, bounty_from}
use bounties.Dca.Time.{Calendar, december_2552, max_timestamp, get_next_target_time}
use bounties.Dca.Time.Schedule.{fixed_length, fixed_is_ahead}
use bounties.Dca.Time.Monthly.{monthly_ahead}
use bounties.Dca.Exchange.{Exchange}
use bounties.Dca.Simulation.Accounts.{IsSimulated, with_strategy}
use bounties.Dca.Execute.{finished}
use bounties.Dca.Execute.Steps.{IsNext, or_now, started_or}
use bounties.Dca.Execute.Handler.{IsStarted, IsTriggered}

-- An interval that has a next execution: a positive one of fixed length, or months.
abbrev pub IsInterval : TimeInterval → Type 0
IsInterval i = (i ≡ monthly) ⊎ ((d : ℕ) × (fixed_length i ≡ some d) × (0 < d))

-- A start that is less than 2147483647 seconds ago, or ahead.
abbrev pub IsRecent : Env → ℕ → Type 0
IsRecent env start = env.time < start + 2147483647

-- The next execution is within the range of the instants that chrono and `Timestamp` represent: for
-- months, the present and the start are before December 2552; otherwise an interval after either is
-- a time that a `Timestamp` holds, and the start is at most 2147483647 seconds ahead.
pub record IsTimely (env : Env) (start : ℕ) (i : TimeInterval) : Type 0 where
  pub months : i ≡ monthly → (env.time < december_2552) × (start < december_2552)
  pub near : start < env.time + 2147483648
  pub fixed :
      (d : ℕ)
      → fixed_length i ≡ some d
      → (env.time + d ≤ max_timestamp) × (start + d ≤ max_timestamp)

pub next_is_later :
    (cal : Calendar) (env : Env) (start t : ℕ) (i : TimeInterval)
    → IsInterval i
    → IsRecent env start
    → get_next_target_time cal env.time start i ≡ some t
    → env.time < t
next_is_later cal env start t i (inl q) recent h = monthly_ahead cal env.time start t (rw q at h)
next_is_later cal env start t i (inr (d, f, pos)) recent h =
    fixed_is_ahead cal env.time start d t i f pos recent h

-- Every bounty is stored under its own number.
abbrev pub IsKeyed : Store → Type 0
IsKeyed s = (id : ℕ) (b : Bounty) → may_load id s.bounties ≡ some b → b.id ≡ id

pub get_bounty_lem :
    (s : Store) (id : ℕ) (b : Bounty)
    → get_bounty s id ≡ ok b
    → (found : Bounty) × (may_load id s.bounties ≡ some found) × (b ≡ bounty_from s found)
unfolding get_bounty
get_bounty_lem s id b h =
    let (found, e, h1) = >>=-eq-ok (or_err (may_load id s.bounties) _) _ h in
    (found, or_err-eq-ok (may_load id s.bounties) _ found e, ground arith)

-- What is stored after an execution differs from before in nothing but this.
abbrev pub executed_as :
    Bounty → BountyStatus → Option ℕ → Option PerformanceAssessmentStrategy → Bounty
executed_as b status started_at strategy = record b {
  status = status;
  started_at = started_at;
  performance_assessment_strategy = strategy;
}

-- The trigger after an execution: none, or the next instant of the schedule.
abbrev pub IsRescheduled : Calendar → Env → Bounty → Option Trigger → Type 0
IsRescheduled cal env b trigger =
    (trigger ≡ none)
    ⊎ ((t : ℕ) × (start : ℕ) × (trigger
          ≡ some (record { bounty_id = b.id; configuration = TriggerConfiguration.time t }))
        × ((start ≡ started_or b env.time) ⊎ (start ≡ env.time))
        × (get_next_target_time cal env.time start b.time_interval ≡ some t))

module _ ⦃m : Arith⦄ (cal : Calendar) (api : Api) (q : Balances) (x : Exchange)
    (hash : SwapAdjustmentStrategy → ℕ) (to_json_binary : Body → Binary) (env : Env) where
  pub same_lem :
      (s : Store) (b started after : Bounty) (between s' : Store)
      → IsStarted env s b started between
      → IsSimulated between started after s'
      → (status : BountyStatus) × (started_at : Option ℕ) × (strategy : Option
          PerformanceAssessmentStrategy)
        × (after ≡ executed_as b status started_at strategy)
        × ((started_at ≡ b.started_at) ⊎ (started_at ≡ some env.time))
  same_lem s b started after between s' begun simulated = (
    begun.status,
    begun.started_at,
    simulated.strategy,
    simulated.same ∙ ap (λ (c : Bounty). with_strategy c simulated.strategy) begun.same,
    begun.since,
  )

  or_now_lem :
      (b : Bounty) (started_at : Option ℕ)
      → (started_at ≡ b.started_at) ⊎ (started_at ≡ some env.time)
      → (or_now started_at env.time ≡ started_or b env.time)
        ⊎ (or_now started_at env.time ≡ env.time)
  or_now_lem b started_at (inl e) = inl (ap (λ (o : Option ℕ). or_now o env.time) e)
  or_now_lem b started_at (inr e) = inr (ap (λ (o : Option ℕ). or_now o env.time) e)

  saved_lem :
      (k j t : ℕ) (ts ts' : Storage Trigger)
      → ts' ≡ save j (record { bounty_id = j; configuration = TriggerConfiguration.time t }) ts
      → j ≡ k
      → may_load k ts'
        ≡ some (record { bounty_id = k; configuration = TriggerConfiguration.time t })
  saved_lem k j t ts ts' e q =
      ap (λ (l : Storage Trigger). may_load k l) e
      ∙ may_load-save j k (record { bounty_id = j; configuration = TriggerConfiguration.time t }) ts
      ∙ rw q (ground arith)

  removed_lem : (k : ℕ) (ts ts' : Storage Trigger) → ts' ≡ remove k ts → may_load k ts' ≡ none
  removed_lem k ts ts' e =
      ap (λ (l : Storage Trigger). may_load k l) e ∙ may_load-remove k k ts ∙ ground arith

  next_lem :
      (b after : Bounty) (s s' : Store) (status : BountyStatus) (started_at : Option ℕ)
      (strategy : Option PerformanceAssessmentStrategy)
      → after ≡ executed_as b status started_at strategy
      → (started_at ≡ b.started_at) ⊎ (started_at ≡ some env.time)
      → IsNext cal env after s s'
      → IsRescheduled cal env b (may_load b.id s'.triggers)
  next_lem b after s s' status started_at strategy same since next = inr (
    next.target_time,
    or_now started_at env.time,
    saved_lem b.id after.id next.target_time s.triggers s'.triggers next.saved
        (ap (λ (c : Bounty). c.id) same),
    or_now_lem b started_at since,
    ap (λ (c : Bounty). get_next_target_time cal env.time (started_or c env.time) c.time_interval)
          (sym same)
        ∙ next.computed,
  )

  -- An accepted execution consumes the trigger: the bounty is left without one, or with the next
  -- instant of its schedule.
  pub execute_trigger-IsRescheduled :
      (s : Store) (id : ℕ) (r : Response) (s' : Store)
      (done : IsTriggered cal api q x hash to_json_binary env s id r s')
      → IsRescheduled cal env done.bounty (may_load done.bounty.id s'.triggers)
  unfolding finished
  execute_trigger-IsRescheduled s id r s' done =
      let ran = done.executed in
      let (status, started_at, strategy, same, since) =
        same_lem s done.bounty done.started ran.after done.between ran.between done.begun
          ran.simulated in
      elim ran.outcome [
        | inl on ↦
            let rescheduled =
              next_lem done.bounty ran.after ran.between on.between status started_at strategy same
                since on.next in
            rw (ap (λ (l : Storage Trigger). may_load done.bounty.id l) on.kept.triggers)
              rescheduled
        | inr over ↦ inl (
            removed_lem done.bounty.id s.triggers s'.triggers (
              ap (λ (p : Response × Store). p.1.triggers) over.response
              ∙ ran.simulated.triggers
              ∙ done.begun.triggers))
      ]
