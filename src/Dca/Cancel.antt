-- ===== src/Dca/Cancel.antt =====
-- contracts/dca/src/handlers/cancel_vault.rs: the end of a bounty at its owner's, or the admin's,
-- request. The field `destination` that it reads is not one of a bounty's: the address is a
-- parameter.
pub mod Refund
use bounties.Prelude.{ℕ, Bool, Option, none, some, List, [], ◌∷◌, ◌++◌, ltb, if◌then◌else◌}
use bounties.Shared.Result.{text, number, coin, Result, ok, ◌>>=◌, ◌>>◌}
use bounties.Shared.Arith.{Arith}
use bounties.Shared.Coin.{empty_of}
use bounties.Shared.Chain.{
  Addr, Body, Env, MessageInfo, Response, SubMsg, sub_msg, reply_on_error, bank_send, wasm_execute,
}
use bounties.Dca.Types.{Bounty, BountyStatus, Config, TriggerConfiguration, bounty_cancelled}
use bounties.Dca.Store.{
  Store, get_config, get_bounty, update_bounty, create_event, delete_trigger,
  save_disburse_escrow_task,
}
use bounties.Dca.Time.{Calendar}
use bounties.Dca.Validation.Access.{
  assert_sender_is_admin_or_bounty_owner, assert_bounty_is_not_cancelled,
}
use bounties.Dca.Swaps.{get_expected_execution_completed_date}
use bounties.Dca.Execute.{denoms}

abbrev pub fail_silently_reply_id : ℕ
fail_silently_reply_id = 6

unfoldable pub refund : Addr → Bounty → List SubMsg
refund destination b =
    if ltb 0 b.balance.amount then sub_msg (bank_send destination (b.balance ∷ [])) ∷ [] else []

-- The bounty without its balance.
abbrev pub cancelled : Bounty → Bounty
cancelled b = record b { status = BountyStatus.cancelled; balance = empty_of b.balance }

unfoldable pub retract_messages : Config → Bounty → ℕ → List SubMsg
retract_messages config b order_idx =
    reply_on_error
      (wasm_execute config.exchange_contract_address (Body.retract_order order_idx (denoms b)) [])
      fail_silently_reply_id
    ∷ reply_on_error
        (wasm_execute config.exchange_contract_address (Body.withdraw_order order_idx (denoms b))
          [])
        fail_silently_reply_id
    ∷ []

-- The limit order of a trigger by price is taken back.
unfoldable pub retract : Store → Bounty → Option TriggerConfiguration → Result (List SubMsg)
retract s b (some (TriggerConfiguration.price _ order_idx)) = do
  config ← get_config s
  ok (retract_messages config b order_idx)
retract s b _ = ok []

-- The bounty is stored without its balance and its trigger, and the balance is sent back.
unfoldable pub ended : (Bounty → Addr) → Store → Bounty → List SubMsg → Response × Store
ended destination s b retracted = (
  record {
    attributes =
        ("cancel_bounty", text "true")
        ∷ ("bounty_id", number b.id)
        ∷ ("owner", text b.owner)
        ∷ ("refunded_amount", coin b.balance.amount b.balance.denom)
        ∷ [];
    messages = refund (destination b) b ++ retracted;
  },
  delete_trigger (update_bounty s (cancelled b)) b.id,
)

module _ ⦃m : Arith⦄ (cal : Calendar) (destination : Bounty → Addr) (env : Env) where
  -- The disbursement of the escrow waits for the end of the standard strategy.
  unfoldable pub schedule_escrow : Store → Bounty → Result Store
  schedule_escrow s b =
      if ltb 0 b.escrowed_amount.amount
      then (do
        due_date ← get_expected_execution_completed_date cal b env.time
        ok (save_disburse_escrow_task s b.id due_date))
      else ok s

  unfoldable pub cancel_bounty_handler : Store → MessageInfo → ℕ → Result (Response × Store)
  cancel_bounty_handler s info bounty_id = do
    bounty ← get_bounty s bounty_id
    assert_sender_is_admin_or_bounty_owner s bounty.owner info.sender
    assert_bounty_is_not_cancelled bounty
    s1 ← schedule_escrow (create_event s env bounty.id bounty_cancelled) bounty
    retracted ← retract (update_bounty s1 (cancelled bounty)) bounty bounty.trigger
    ok (ended destination s1 bounty retracted)
