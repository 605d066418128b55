-- ===== src/Dca/Machine.antt =====
-- contracts/dca/src/contract.rs as a state machine: the contract is instantiated, and then takes
-- messages and replies, each of which either succeeds and moves the store, or fails and leaves it.
-- Between two of them anything outside the contract may change: the time, the balances and the
-- exchange are those of each step, and so are the versions of a migration. The steps are the handlers that write the store, with those
-- whose lines in `execute` and `reply` are commented out (the reply to a swap, and the factors of
-- strategies); what a cw20 token forwards is a message with its sender and funds.
pub mod Stems
pub mod Steps
pub mod Payments
pub mod Replies
pub mod Ledger
pub mod Conservation
use bounties.Prelude.{ℕ, ◌≡◌, String, Option, none, some, List, []}
use bounties.Shared.Result.{Result, ok}
use bounties.Shared.Arith.{Arith}
use bounties.Shared.Chain.{
  Addr, Api, Balances, Binary, Body, Env, MessageInfo, Response, SubMsgResult,
}
use bounties.Dca.Types.{Bounty, Config, SwapAdjustmentStrategy}
use bounties.Dca.Store.{Store}
use bounties.Dca.Time.{Calendar}
use bounties.Dca.Validation.Addresses.{Callback}
use bounties.Dca.Exchange.{Exchange}
use bounties.Dca.Config.{ConfigUpdate, instantiate_handler, migrate_handler, update_config_handler}
use bounties.Dca.Create.{CreateBounty, create_bounty_handler}
use bounties.Dca.Update.{Value, UpdateBounty, update_bounty_handler, update_swap_adjustment_handler}
use bounties.Dca.Cancel.{cancel_bounty_handler}
use bounties.Dca.Deposit.{deposit_handler}
use bounties.Dca.Execute.{execute_trigger_handler}
use bounties.Dca.DisburseFunds.{disburse_funds_handler}
use bounties.Dca.DisburseEscrow.{TwapQuery, disburse_escrow_handler}
use bounties.Dca.FailedAutomation.{handle_failed_automation_handler}

-- The store of a contract that has not been instantiated.
abbrev pub fresh : Store
fresh = record {
  config = none;
  bounty_counter = none;
  bounties = [];
  triggers = [];
  disburse_escrow_tasks = [];
  event_counter = none;
  events = [];
  bounty_id_cache = none;
  swap_adjustments = [];
  swap_cache = none;
  post_execution_action_cache = [];
}

module _ ⦃m : Arith⦄ (cal : Calendar) (api : Api) (hash : SwapAdjustmentStrategy → ℕ)
    (to_json_binary : Body → Binary) (from_json : Binary → Option Callback)
    (format : Value → String) (destination : Bounty → Addr) where
  -- One accepted message or reply.
  pub data Step : Store → Response → Store → Type 0 where
    created :
        (env : Env) (x : Exchange) (info : MessageInfo) (msg : CreateBounty) (s : Store)
        (r : Response) (s' : Store)
        → create_bounty_handler api x from_json env s info msg ≡ ok (r, s')
        → Step s r s'
    updated :
        (env : Env) (info : MessageInfo) (id : ℕ) (msg : UpdateBounty) (s : Store) (r : Response)
        (s' : Store)
        → update_bounty_handler format cal api env s info id msg ≡ ok (r, s')
        → Step s r s'
    cancelled :
        (env : Env) (info : MessageInfo) (id : ℕ) (s : Store) (r : Response) (s' : Store)
        → cancel_bounty_handler cal destination env s info id ≡ ok (r, s')
        → Step s r s'
    deposited :
        (env : Env) (info : MessageInfo) (address : Addr) (id : ℕ) (s : Store) (r : Response)
        (s' : Store)
        → deposit_handler cal api env s info address id ≡ ok (r, s')
        → Step s r s'
    executed :
        (env : Env) (q : Balances) (x : Exchange) (id : ℕ) (route : Option Binary) (s : Store)
        (r : Response) (s' : Store)
        → execute_trigger_handler cal api q x hash to_json_binary env s id route ≡ ok (r, s')
        → Step s r s'
    swapped :
        (env : Env) (q : Balances) (reply : SubMsgResult) (s : Store) (r : Response) (s' : Store)
        → disburse_funds_handler api q env s reply ≡ ok (r, s')
        → Step s r s'
    escrow_disbursed :
        (env : Env) (twap : TwapQuery) (info : MessageInfo) (id : ℕ) (s : Store) (r : Response)
        (s' : Store)
        → disburse_escrow_handler api twap env s info id ≡ ok (r, s')
        → Step s r s'
    automation_replied :
        (env : Env) (reply : SubMsgResult) (s : Store) (r : Response) (s' : Store)
        → handle_failed_automation_handler api env s reply ≡ ok (r, s')
        → Step s r s'
    adjusted :
        (env : Env) (debug : SwapAdjustmentStrategy → String) (info : MessageInfo)
        (strategy : SwapAdjustmentStrategy) (value : ℕ) (s : Store) (r : Response) (s' : Store)
        → update_swap_adjustment_handler hash debug env s info strategy value ≡ ok (r, s')
        → Step s r s'
    configured :
        (info : MessageInfo) (update : ConfigUpdate) (s : Store) (r : Response) (s' : Store)
        → update_config_handler api s info update ≡ ok (r, s')
        → Step s r s'
    migrated :
        (found : Result (String × String)) (version : String) (msg : Config) (s : Store)
        (r : Response) (s' : Store)
        → migrate_handler api found version s msg ≡ ok (r, s')
        → Step s r s'

  -- The stores that the contract can come to.
  pub data Reachable : Store → Type 0 where
    instantiated :
        (config : Config) (r : Response) (s : Store)
        → instantiate_handler api fresh config ≡ ok (r, s)
        → Reachable s
    after : (s : Store) (r : Response) (s' : Store) → Reachable s → Step s r s' → Reachable s'
