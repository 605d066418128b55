-- ===== src/Dca/FailedAutomation.antt =====
-- contracts/dca/src/handlers/handle_failed_automation.rs: the reply to each message of a
-- disbursement. The entries of the cache are in the order of the messages; a failed payment goes to
-- the owner of the bounty.
pub mod Refunds
use bounties.Prelude.{ℕ, ◌-◌, Option, none, some, List, [], ◌∷◌, length, leb, if◌then◌else◌}
use bounties.Shared.Result.{number, panic, Result, ok, err, or_err, ◌>>=◌}
use bounties.Shared.Chain.{Api, Env, Response, SubMsgResult, succeeded, failed, sub_msg}
use bounties.Shared.Cw20.{into_bank_msg}
use bounties.Shared.Storage.{may_load, save}
use bounties.Dca.Types.{Bounty, PostExecutionActionCacheEntry, bounty_post_execution_action_failed}
use bounties.Dca.Store.{Store, not_found, get_bounty, create_event}

abbrev pub Cache : Type 0
Cache = List PostExecutionActionCacheEntry

-- `cache.pop_front().unwrap()`
abbrev pub pop_front : Cache → Result (PostExecutionActionCacheEntry × Cache)
pop_front [] = err panic
pop_front (entry ∷ rest) = ok (entry, rest)

-- `bounty.destinations.len() - cache.len()`, which panics below zero
unfoldable pub destination_number : Bounty → Cache → Result ℕ
destination_number b rest =
    if leb (length rest) (length b.destinations)
    then ok (length b.destinations - length rest)
    else err panic

-- The attribute's key, `destination_msg_{}`, is kept as a template with its number.
unfoldable pub replied :
    Api
    → Env
    → Store
    → ℕ
    → Bounty
    → PostExecutionActionCacheEntry
    → ℕ
    → SubMsgResult
    → Result (Response × Store)
replied api env s bounty_id bounty entry n succeeded =
    ok (record { attributes = ("destination_msg_{}: succeeded", number n) ∷ []; messages = [] }, s)
replied api env s bounty_id bounty entry n failed = do
  msg ← into_bank_msg api bounty.owner entry.funds
  ok (
    record {
      attributes = ("destination_msg_{}: failed", number n) ∷ [];
      messages = sub_msg msg ∷ [];
    },
    create_event s env bounty_id (bounty_post_execution_action_failed entry.msg entry.funds),
  )

unfoldable pub handle_failed_automation_handler :
    Api → Env → Store → SubMsgResult → Result (Response × Store)
handle_failed_automation_handler api env s reply = do
  bounty_id ← or_err s.bounty_id_cache (not_found "Uint128")
  bounty ← get_bounty s bounty_id
  cache ←
      or_err (may_load bounty_id s.post_execution_action_cache)
        (not_found "VecDeque<PostExecutionActionCacheEntry>")
  (entry, rest) ← pop_front cache
  n ← destination_number bounty rest
  replied api env
      (record s { post_execution_action_cache = save bounty_id rest s.post_execution_action_cache })
      bounty_id bounty entry n reply
