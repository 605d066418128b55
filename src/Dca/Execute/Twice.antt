-- ===== src/Dca/Execute/Twice.antt =====
-- What a bounty holds after an execution of contracts/dca/src/handlers/execute_trigger.rs, and a
-- second execution at the same time.
use bounties.Prelude.{ℕ, ◌≡◌, ◌⊎◌, inl, inr, refl, ap, sym, ◌∙◌, false, Option, none, some, arith}
use bounties.Shared.Result.{Result, ok, err, is_ok}
use bounties.Shared.Arith.{Arith}
use bounties.Shared.Chain.{Api, Balances, Binary, Body, Env, Response}
use bounties.Shared.Storage.{Storage, save, may_load}
use bounties.Shared.Storage.Laws.{may_load-save}
use bounties.Dca.Types.{
  Bounty, BountyStatus, Trigger, TriggerConfiguration, SwapAdjustmentStrategy,
  PerformanceAssessmentStrategy,
}
use bounties.Dca.Store.{Store, get_trigger, bounty_from, bounty_data, get_bounty}
use bounties.Dca.Time.{Calendar}
use bounties.Dca.Exchange.{Exchange}
use bounties.Dca.Execute.{finished, execute_trigger_handler}
use bounties.Dca.Execute.Steps.{started_or}
use bounties.Dca.Execute.Handler.{IsReached, IsTriggered, execute_trigger_lem}
use bounties.Dca.Execute.Again.{
  IsInterval, IsRecent, next_is_later, IsKeyed, get_bounty_lem, executed_as, IsRescheduled,
  execute_trigger-IsRescheduled, same_lem,
}

-- The bounty that is stored differs from the one given in the status, the start and the accounts of
-- the standard strategy at most.
pub record IsHeld (b : Bounty) (id : ℕ) (m : Storage Bounty) : Type 0 where
  pub found : Bounty
  pub status : BountyStatus
  pub started_at : Option ℕ
  pub strategy : Option PerformanceAssessmentStrategy
  pub loaded : may_load id m ≡ some found
  pub same : bounty_data found ≡ bounty_data (executed_as b status started_at strategy)

get_bounty-IsHeld :
    (s : Store) (id : ℕ) (b : Bounty) → get_bounty s id ≡ ok b → IsHeld b id s.bounties
unfolding bounty_data bounty_from
get_bounty-IsHeld s id b h =
    let (found, e, same) = get_bounty_lem s id b h in
    record {
      found = found;
      status = b.status;
      started_at = b.started_at;
      strategy = b.performance_assessment_strategy;
      loaded = e;
      same = sym (ap (λ (c : Bounty). bounty_data c) same);
    }

save-IsHeld :
    (id : ℕ) (old new : Storage Bounty) (b c : Bounty) (status : BountyStatus)
    (started_at : Option ℕ) (strategy : Option PerformanceAssessmentStrategy)
    → c ≡ executed_as b status started_at strategy
    → b.id ≡ id
    → (new ≡ old) ⊎ (new ≡ save c.id (bounty_data c) old)
    → IsHeld b id old
    → IsHeld b id new
save-IsHeld id old new b c status started_at strategy same own (inl e) held = record {
  found = held.found;
  status = held.status;
  started_at = held.started_at;
  strategy = held.strategy;
  loaded = ap (λ (m : Storage Bounty). may_load id m) e ∙ held.loaded;
  same = held.same;
}
save-IsHeld id old new b c status started_at strategy same own (inr e) held =
    let key : c.id ≡ id = ap (λ (d : Bounty). d.id) same ∙ own in
    record {
      found = bounty_data c;
      status = status;
      started_at = started_at;
      strategy = strategy;
      loaded =
          ap (λ (m : Storage Bounty). may_load id m) e
          ∙ may_load-save c.id id (bounty_data c) old
          ∙ ground (arith, key);
      same = data_lem;
    }
  where
    data_lem : bounty_data (bounty_data c) ≡ bounty_data (executed_as b status started_at strategy)
    data_lem = unfold bounty_data in ap (λ (d : Bounty). bounty_data d) same

pub own_id : (s : Store) (id : ℕ) (b : Bounty) → IsKeyed s → get_bounty s id ≡ ok b → b.id ≡ id
unfolding bounty_from
own_id s id b keyed h =
    let (found, e, same) = get_bounty_lem s id b h in
    ap (λ (c : Bounty). c.id) same ∙ keyed id found e

-- The trigger as `bounty_from` joins it.
abbrev joined : Option Trigger → Option TriggerConfiguration
joined trigger = elim trigger [ none ↦ none | some t ↦ some t.configuration ]

trigger_lem :
    (s : Store) (id : ℕ) (b found : Bounty)
    → get_bounty s id ≡ ok b
    → may_load id s.bounties ≡ some found
    → found.id ≡ id
    → b.trigger ≡ joined (may_load id s.triggers)
unfolding bounty_from get_trigger
trigger_lem s id b found h loaded own =
    let (other, e, same) = get_bounty_lem s id b h in
    let equal : other ≡ found = cc in
    ap (λ (c : Bounty). c.trigger) same
    ∙ ap (λ (k : ℕ). joined (may_load k s.triggers)) (ap (λ (c : Bounty). c.id) equal ∙ own)

pub refused :
    (result : Result (Response × Store))
    → ((r : Response) (s' : Store) → ¬ (result ≡ ok (r, s')))
    → is_ok result ≡ false
refused (err e) never = refl
refused (ok (r, s')) never = absurd (never r s' refl)

ok_eq : {b c : Bounty} → Result.ok b ≡ ok c → b ≡ c
ok_eq h = cc

data_id :
    (found b : Bounty) (status : BountyStatus) (started_at : Option ℕ)
    (strategy : Option PerformanceAssessmentStrategy)
    → bounty_data found ≡ bounty_data (executed_as b status started_at strategy)
    → found.id ≡ b.id
unfolding bounty_data
data_id found b status started_at strategy h = ap (λ (c : Bounty). c.id) h

not-IsReached :
    (x : Exchange) (cal : Calendar) (env : Env) (s : Store) (b b' : Bounty)
    (trigger : Option Trigger)
    → IsInterval b.time_interval
    → IsRecent env (started_or b env.time)
    → IsRescheduled cal env b trigger
    → b'.trigger ≡ joined trigger
    → ¬ IsReached x env s b'
not-IsReached x cal env s b b' trigger interval recent (inl empty) same (inl (t, e, le)) = cc
not-IsReached x cal env s b b' trigger interval recent (inl empty) same
      (inr (_, _, _, _, e, _, _, _)) =
    cc
not-IsReached x cal env s b b' trigger interval recent (inr (t, start, saved, from, next)) same
      (inl (u, e, le)) =
    let equal : t ≡ u = cc in
    let near : IsRecent env start = elim from [
      | inl scheduled ↦ rw scheduled recent
      | inr now ↦ rw now (omega arith)
    ] in
    let later = next_is_later cal env start t b.time_interval interval near next in omega arith
not-IsReached x cal env s b b' trigger interval recent (inr (t, start, saved, from, next)) same
      (inr (_, _, _, _, e, _, _, _)) =
    cc

module _ ⦃m : Arith⦄ (cal : Calendar) (api : Api) (q : Balances) (x : Exchange)
    (hash : SwapAdjustmentStrategy → ℕ) (to_json_binary : Body → Binary) (env : Env) where
  -- What an accepted execution leaves of the bounty.
  triggered-IsHeld :
      (s : Store) (id : ℕ) (r : Response) (s' : Store)
      (done : IsTriggered cal api q x hash to_json_binary env s id r s')
      → IsKeyed s
      → IsHeld done.bounty id s'.bounties
  unfolding finished
  triggered-IsHeld s id r s' done keyed =
      let ran = done.executed in
      let b = done.bounty in
      let own = own_id s id b keyed done.found in
      let begun = done.begun in
      let (status, started_at, strategy, same, _) =
        same_lem cal api q x hash to_json_binary env s b done.started ran.after done.between
          ran.between begun ran.simulated in
      let one =
        save-IsHeld id s.bounties done.between.bounties b done.started begun.status begun.started_at
          b.performance_assessment_strategy begun.same own begun.stored
          (get_bounty-IsHeld s id b done.found) in
      let two =
        save-IsHeld id done.between.bounties ran.between.bounties b ran.after status started_at
          strategy same own ran.simulated.stored one in
      let kept : s'.bounties ≡ ran.between.bounties = elim ran.outcome [
        | inl on ↦ on.kept.bounties ∙ on.next.bounties
        | inr over ↦ ap (λ (p : Response × Store). p.1.bounties) over.response
      ] in
      save-IsHeld id ran.between.bounties s'.bounties b b b.status b.started_at
        b.performance_assessment_strategy refl own (inl kept) two

  -- Where every bounty is stored under its own number, an accepted execution changes of the bounty
  -- that it executes only the status, the start and the accounts of the standard strategy: what
  -- was swapped is counted when the exchange has answered.
  pub execute_trigger-IsHeld :
      (s : Store) (id : ℕ) (b : Bounty) (route : Option Binary) (r : Response) (s' : Store)
      → IsKeyed s
      → get_bounty s id ≡ ok b
      → execute_trigger_handler cal api q x hash to_json_binary env s id route ≡ ok (r, s')
      → IsHeld b id s'.bounties
  execute_trigger-IsHeld s id b route r s' keyed found h =
      let done = execute_trigger_lem cal api q x hash to_json_binary env s id route r s' h in
      let same : done.bounty ≡ b = ok_eq (sym done.found ∙ found) in
      rw (← same) (triggered-IsHeld s id r s' done keyed)

  -- Two executions of a bounty cannot be accepted at one time: when every bounty is stored under
  -- its own number, the interval of the bounty is a month or of positive fixed length, and its
  -- start is ahead or less than 2147483647 seconds ago, an execution after an accepted one is
  -- refused, whatever its route.
  pub execute_trigger-twice :
      (s : Store) (id : ℕ) (b : Bounty) (route : Option Binary) (r : Response) (s' : Store)
      → IsKeyed s
      → get_bounty s id ≡ ok b
      → IsInterval b.time_interval
      → IsRecent env (started_or b env.time)
      → execute_trigger_handler cal api q x hash to_json_binary env s id route ≡ ok (r, s')
      → (other : Option Binary)
      → is_ok (execute_trigger_handler cal api q x hash to_json_binary env s' id other) ≡ false
  execute_trigger-twice s id b route r s' keyed found interval recent h other =
      refused (execute_trigger_handler cal api q x hash to_json_binary env s' id other) never
    where
      never :
          (r2 : Response) (s2 : Store)
          → ¬ (
              execute_trigger_handler cal api q x hash to_json_binary env s' id other ≡ ok (r2, s2))
      never r2 s2 h2 =
          let done = execute_trigger_lem cal api q x hash to_json_binary env s id route r s' h in
          let again =
            execute_trigger_lem cal api q x hash to_json_binary env s' id other r2 s2 h2 in
          let equal : done.bounty ≡ b = ok_eq (sym done.found ∙ found) in
          let held = triggered-IsHeld s id r s' done keyed in
          let own = own_id s id done.bounty keyed done.found in
          let same = trigger_lem s' id again.bounty held.found again.found held.loaded (
            data_id held.found done.bounty held.status held.started_at held.strategy held.same
            ∙ own) in
          let left =
            execute_trigger-IsRescheduled cal api q x hash to_json_binary env s id r s' done in
          not-IsReached x cal env s' b again.bounty (may_load id s'.triggers) interval recent
            (rw (← equal, ← own) left) same again.reached
