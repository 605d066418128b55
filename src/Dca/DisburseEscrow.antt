-- ===== src/Dca/DisburseEscrow.antt =====
-- contracts/dca/src/handlers/disburse_escrow.rs: the escrow of a finished bounty is paid out, less
-- the performance fee.
pub mod Emptied
use bounties.Prelude.{
  ℕ, String, Bool, true, false, Option, none, some, List, [], ◌∷◌, ◌++◌, ltb, ◌==◌, if◌then◌else◌,
}
use bounties.Shared.Result.{
  Argument, text, number, coin, custom_error, Check, Result, ok, err, fail_if, ◌>>=◌, ◌>>◌,
}
use bounties.Shared.Arith.{Arith}
use bounties.Shared.Coin.{Coin, subtract, empty_of}
use bounties.Shared.Chain.{Addr, Binary, Api, Env, MessageInfo, Attribute, Response}
use bounties.Dca.Types.{Bounty, bounty_escrow_disbursed, get_swap_denom}
use bounties.Dca.Store.{
  Store, get_config, get_bounty, update_bounty, create_event, get_disburse_escrow_task_due_date,
  delete_disburse_escrow_task,
}
use bounties.Dca.Validation.Access.{assert_sender_is_executor}
use bounties.Dca.Disbursement.{get_disbursement_messages}
use bounties.Dca.Fees.{get_performance_fee, get_fee_messages}

-- `GetTwapToNow` asked of the exchange contract: its address, the two denominations, the period and
-- the route.
abbrev pub TwapQuery : Type 0
TwapQuery = Addr → String → String → ℕ → Option Binary → Result ℕ

abbrev pub escrow_attributes : Bounty → Coin → Coin → List Attribute
escrow_attributes b fee disbursed =
    ("disburse_escrow", text "true")
    ∷ ("bounty_id", number b.id)
    ∷ ("owner", text b.owner)
    ∷ ("performance_fee", coin fee.amount fee.denom)
    ∷ ("escrow_disbursed", coin disbursed.amount disbursed.denom)
    ∷ []

abbrev pub nothing_escrowed : Bounty → Response
nothing_escrowed b =
    let zero_coin : Coin = record { amount = 0; denom = b.target_denom } in
    record { attributes = escrow_attributes b zero_coin zero_coin; messages = [] }

unfoldable pub assert_due : Option ℕ → ℕ → Check
assert_due none time = ok tt
assert_due (some due_date) time =
    fail_if (ltb time due_date)
      (custom_error "Escrow is not available to be disbursed until {:?}" (number due_date ∷ []))

-- The store before the messages are made: the escrow is emptied, the event written, the task
-- deleted and the bounty's id cached.
unfoldable pub emptied : Store → Env → Bounty → Coin → Coin → Store
unfolding update_bounty create_event delete_disburse_escrow_task
emptied s env b disbursed fee =
    let stored = update_bounty s (record b { escrowed_amount = empty_of b.escrowed_amount }) in
    let logged = create_event stored env b.id (bounty_escrow_disbursed disbursed fee) in
    record (delete_disburse_escrow_task logged b.id) { bounty_id_cache = some b.id }

module _ ⦃m : Arith⦄ (api : Api) (get_twap_to_now : TwapQuery) (env : Env) where
  unfoldable pub pay_escrow : Store → Bounty → Coin → Coin → Result (Response × Store)
  pay_escrow s b disbursed fee = do
    (msgs, s') ←
        get_disbursement_messages api (emptied s env b disbursed fee)
          (record b { escrowed_amount = empty_of b.escrowed_amount }) disbursed.amount
    fee_msgs ← get_fee_messages api s' env (fee.amount ∷ []) b.target_denom true
    ok (record { attributes = escrow_attributes b fee disbursed; messages = msgs ++ fee_msgs }, s')

  unfoldable pub disburse_due : Store → Bounty → Result (Response × Store)
  disburse_due s b = do
    assert_due (get_disburse_escrow_task_due_date s b.id) env.time
    config ← get_config s
    current_price ←
        get_twap_to_now config.exchange_contract_address (get_swap_denom b) b.target_denom
          config.twap_period b.route
    performance_fee ← get_performance_fee b current_price
    amount_to_disburse ← subtract b.escrowed_amount performance_fee
    pay_escrow s b amount_to_disburse performance_fee

  unfoldable pub disburse_escrow_handler : Store → MessageInfo → ℕ → Result (Response × Store)
  disburse_escrow_handler s info bounty_id = do
    assert_sender_is_executor s env info.sender
    bounty ← get_bounty s bounty_id
    if bounty.escrowed_amount.amount == 0
        then ok (nothing_escrowed bounty, s)
        else disburse_due s bounty
