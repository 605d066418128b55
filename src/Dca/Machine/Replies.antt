-- ===== src/Dca/Machine/Replies.antt =====
-- The replies and the admin's messages of contracts/dca/src/contract.rs that do not touch bounties.
use bounties.Prelude.{
  ℕ, ◌≡◌, inl, inr, refl, sym, ◌∙◌, String, some, ◌==◌, if◌then◌else◌, Bool-cases, arith,
}
use bounties.Shared.Result.{ok, or_err, >>=-eq-ok}
use bounties.Shared.Storage.{may_load}
use bounties.Shared.Chain.{Api, Env, MessageInfo, Response, SubMsgResult, succeeded, failed}
use bounties.Shared.Cw20.{into_bank_msg}
use bounties.Dca.Types.{Bounty, SwapAdjustmentStrategy, PostExecutionActionCacheEntry}
use bounties.Dca.Store.{Store, get_bounty, create_event, not_found}
use bounties.Dca.Validation.Access.{assert_sender_is_executor}
use bounties.Dca.Validation.Strategies.{assert_swap_adjustment_value_is_valid}
use bounties.Dca.SwapAdjustments.{update_swap_adjustment}
use bounties.Dca.Update.{update_swap_adjustment_handler}
use bounties.Dca.FailedAutomation.{
  pop_front, destination_number, replied, handle_failed_automation_handler,
}
use bounties.Dca.Validation.Terms.{IsValidTerms}
use bounties.Dca.Create.{CreateBounty}
use bounties.Dca.Create.Stored.{IsCreated}
use bounties.Dca.Machine.Stems.{IsLedger, IsLedger-same}
use bounties.Dca.Machine.Payments.{KeepsLedger}

replied_kept :
    (api : Api) (env : Env) (s : Store) (id : ℕ) (b : Bounty)
    (entry : PostExecutionActionCacheEntry) (n : ℕ) (reply : SubMsgResult) (r : Response)
    (s' : Store)
    → replied api env s id b entry n reply ≡ ok (r, s')
    → (s'.bounties ≡ s.bounties) × (s'.config ≡ s.config)
unfolding replied create_event
replied_kept api env s id b entry n succeeded r s' h = (ground arith, ground arith)
replied_kept api env s id b entry n failed r s' h =
    let (msg, _, g) = >>=-eq-ok (into_bank_msg api b.owner entry.funds) _ h in
    (ground arith, ground arith)

pub automation-KeepsLedger :
    (api : Api) (env : Env) (s : Store) (reply : SubMsgResult) (r : Response) (s' : Store)
    → handle_failed_automation_handler api env s reply ≡ ok (r, s')
    → KeepsLedger s s'
unfolding handle_failed_automation_handler
automation-KeepsLedger api env s reply r s' h ledger =
    let (id, _, h1) = >>=-eq-ok (or_err s.bounty_id_cache (not_found "Uint128")) _ h in
    let (b, _, h2) = >>=-eq-ok (get_bounty s id) _ h1 in
    let (entries, _, h3) =
      >>=-eq-ok
        (or_err (may_load id s.post_execution_action_cache)
          (not_found "VecDeque<PostExecutionActionCacheEntry>"))
        _ h2 in
    let (popped, _, h4) = >>=-eq-ok (pop_front entries) _ h3 in
    let (n, _, h5) = >>=-eq-ok (destination_number b popped.1) _ h4 in
    let (bounties, config) = replied_kept api env _ id b popped.0 n reply r s' h5 in
    (IsLedger-same s.bounties s'.bounties ledger bounties, config)

pub adjusted-KeepsLedger :
    (hash : SwapAdjustmentStrategy → ℕ) (debug : SwapAdjustmentStrategy → String) (env : Env)
    (s : Store) (info : MessageInfo) (strategy : SwapAdjustmentStrategy) (value : ℕ) (r : Response)
    (s' : Store)
    → update_swap_adjustment_handler hash debug env s info strategy value ≡ ok (r, s')
    → KeepsLedger s s'
unfolding update_swap_adjustment_handler update_swap_adjustment
adjusted-KeepsLedger hash debug env s info strategy value r s' h ledger =
    let (_, _, h1) = >>=-eq-ok (assert_sender_is_executor s env info.sender) _ h in
    let (_, _, h2) = >>=-eq-ok (assert_swap_adjustment_value_is_valid debug strategy value) _ h1 in
    (IsLedger-same s.bounties s'.bounties ledger (ground arith), ground arith)

pub created-IsLedger :
    (env : Env) (s : Store) (info : MessageInfo) (msg : CreateBounty) (r : Response) (s' : Store)
    (done : IsCreated env s info msg r s')
    → IsValidTerms done.bounty.destinations done.bounty.slippage_tolerance done.bounty.time_interval
    → IsLedger s.bounties
    → IsLedger s'.bounties
created-IsLedger env s info msg r s' done valid ledger k b h =
    let found : (if k == done.bounty.id then some done.bounty else may_load k s.bounties) ≡ some b =
      sym (done.stored k) ∙ h in
    elim (Bool-cases (k == done.bounty.id)) [
      | inl same ↦
          let one : some done.bounty ≡ some b = rw same at found in
          let equal : done.bounty ≡ b = cc in
          let key : k ≡ done.bounty.id = ground arith in
          (rw (key, ← equal) refl, rw (← equal) valid)
      | inr other ↦ ledger k b (rw other at found)
    ]
