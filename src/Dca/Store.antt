-- ===== src/Dca/Store.antt =====
-- The storage of the DCA contract (contracts/dca/src/state) as one record, and the functions
-- through which the handlers read and write it.
use bounties.Prelude.{ℕ, ◌+◌, String, Option, none, some, List}
use bounties.Shared.Result.{StdError, ContractError, Result, ok, or_err, ◌>>=◌}
use bounties.Shared.Storage.{Storage, may_load, save, remove}
use bounties.Shared.Chain.{Env}
use bounties.Dca.Types.{
  Config, Bounty, Trigger, Event, EventData, SwapCache, PostExecutionActionCacheEntry,
}

-- state/swap_adjustments.rs
pub record SwapAdjustment : Type 0 where
  pub value : ℕ
  pub timestamp : ℕ

-- `bounties` holds `BountyData`, which has no trigger: `get_bounty` joins it from `triggers`.
-- A task is its due date in seconds.
pub record Store : Type 0 where
  pub config : Option Config
  pub bounty_counter : Option ℕ
  pub bounties : Storage Bounty
  pub triggers : Storage Trigger
  pub disburse_escrow_tasks : Storage ℕ
  pub event_counter : Option ℕ
  pub events : Storage Event
  pub bounty_id_cache : Option ℕ
  pub swap_adjustments : Storage SwapAdjustment
  pub swap_cache : Option SwapCache
  pub post_execution_action_cache : Storage (List PostExecutionActionCacheEntry)

-- The error of `load` on a missing key or item.
abbrev pub not_found : String → ContractError
not_found type = ContractError.std (StdError.not_found type)

unfoldable pub get_config : Store → Result Config
get_config s = or_err s.config (not_found "Config")

unfoldable pub update_config : Store → Config → Store
update_config s config = record s { config = some config }

-- state/triggers.rs
unfoldable pub get_trigger : Store → ℕ → Option Trigger
get_trigger s bounty_id = may_load bounty_id s.triggers

unfoldable pub save_trigger : Store → Trigger → Store
save_trigger s trigger = record s { triggers = save trigger.bounty_id trigger s.triggers }

unfoldable pub delete_trigger : Store → ℕ → Store
delete_trigger s bounty_id = record s { triggers = remove bounty_id s.triggers }

-- state/vaults.rs: `bounty_from`, `get_bounty`, `update_bounty` and `save_bounty`. Its lines on
-- swapped_amount and both strategies are commented out, which leaves its conversions without fields
-- that the handlers read: a stored bounty keeps them here.
unfoldable pub bounty_from : Store → Bounty → Bounty
unfolding get_trigger
bounty_from s b = record b {
  trigger = elim (get_trigger s b.id) [ none ↦ none | some t ↦ some t.configuration ];
}

unfoldable pub get_bounty : Store → ℕ → Result Bounty
unfolding bounty_from
get_bounty s bounty_id = do
  found ← or_err (may_load bounty_id s.bounties) (not_found "BountyData")
  ok (bounty_from s found)

-- `BountyData::from` drops the trigger
unfoldable pub bounty_data : Bounty → Bounty
bounty_data b = record b { trigger = none }

unfoldable pub update_bounty : Store → Bounty → Store
unfolding bounty_data
update_bounty s bounty = record s { bounties = save bounty.id (bounty_data bounty) s.bounties }

-- `counter.may_load()?.unwrap_or_default() + 1`
unfoldable pub next_counter : Option ℕ → ℕ
next_counter none = 1
next_counter (some n) = n + 1

unfoldable pub save_bounty : Store → Bounty → Bounty × Store
unfolding next_counter update_bounty
save_bounty s builder =
    let id = next_counter s.bounty_counter in
    let bounty = record builder { id = id; trigger = none } in
    (bounty, update_bounty (record s { bounty_counter = some id }) bounty)

-- state/events.rs
unfoldable pub create_event : Store → Env → ℕ → EventData → Store
unfolding next_counter
create_event s env resource_id payload =
    let id = next_counter s.event_counter in
    let event : Event = record {
      id = id;
      resource_id = resource_id;
      timestamp = env.time;
      block_height = env.height;
      payload = payload;
    } in
    record s { event_counter = some id; events = save id event s.events }

-- state/disburse_escrow_tasks.rs
unfoldable pub save_disburse_escrow_task : Store → ℕ → ℕ → Store
save_disburse_escrow_task s bounty_id due_date = record s {
  disburse_escrow_tasks = save bounty_id due_date s.disburse_escrow_tasks;
}

unfoldable pub get_disburse_escrow_task_due_date : Store → ℕ → Option ℕ
get_disburse_escrow_task_due_date s bounty_id = may_load bounty_id s.disburse_escrow_tasks

unfoldable pub delete_disburse_escrow_task : Store → ℕ → Store
delete_disburse_escrow_task s bounty_id = record s {
  disburse_escrow_tasks = remove bounty_id s.disburse_escrow_tasks;
}
