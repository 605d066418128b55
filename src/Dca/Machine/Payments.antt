-- ===== src/Dca/Machine/Payments.antt =====
-- The handlers of contracts/dca/src/handlers that pay, or that do not touch bounties, keep the
-- bounties under their own numbers, with valid terms.
use bounties.Prelude.{
  ℕ, ◌≡◌, inl, inr, refl, ap, sym, ◌∙◌, true, false, List, [], ◌∷◌, arith, ◌==◌, Bool-cases,
}
use bounties.Shared.Result.{panic, text, ok, or_err, >>=-eq-ok, ok-eq}
use bounties.Shared.Arith.{Arith}
use bounties.Shared.Coin.{Coin, add_to, subtract}
use bounties.Shared.Chain.{
  Api, Balances, Env, Attribute, MessageInfo, Response, SubMsg, SubMsgResult, succeeded, failed,
}
use bounties.Dca.Types.{
  Bounty, bounty_execution_skipped, slippage_tolerance_exceeded, should_not_continue,
  get_swap_denom,
}
use bounties.Dca.Store.{
  Store, get_config, get_bounty, update_bounty, create_event, delete_trigger, not_found,
  get_disburse_escrow_task_due_date,
}
use bounties.Dca.Validation.Access.{assert_sender_is_executor}
use bounties.Dca.Disbursement.{get_disbursement_messages}
use bounties.Dca.Fees.{
  get_fee_messages, get_swap_fee_rate, get_automation_fee_rate, get_performance_fee,
}
use bounties.Dca.DisburseFunds.{
  Split, split_received, settle, coins_moved, finish, distribute, disburse_swapped,
  disburse_funds_handler,
}
use bounties.Dca.DisburseEscrow.{
  TwapQuery, assert_due, emptied, pay_escrow, disburse_due, disburse_escrow_handler,
}
use bounties.Dca.DisburseEscrow.Emptied.{without_escrow, disbursement_keeps}
use bounties.Dca.Machine.Stems.{IsEntry, IsLedger, IsLedger-same, HasSameTerms, IsEntry-cong}
use bounties.Dca.Machine.Steps.{entry_lem, saved_entry}

-- The bounties stay in order, and the configuration stays.
abbrev pub KeepsLedger : Store → Store → Type 0
KeepsLedger s s' = IsLedger s.bounties → IsLedger s'.bounties × (s'.config ≡ s.config)

finish_kept :
    (env : Env) (b : Bounty) (attributes : List Attribute) (msgs : List SubMsg) (s : Store)
    → ((finish env b attributes msgs s).1.bounties ≡ s.bounties)
      × ((finish env b attributes msgs s).1.config ≡ s.config)
unfolding finish delete_trigger
finish_kept env b attributes msgs s = elim (Bool-cases (should_not_continue b)) [
  | inl over ↦ rw over (refl, refl)
  | inr going ↦ rw going (refl, refl)
]

finished_with :
    (env : Env) (b : Bounty) (attributes : List Attribute) (msgs : List SubMsg) (s : Store)
    (r : Response) (s' : Store)
    → ok (finish env b attributes msgs s) ≡ ok (r, s')
    → (s'.bounties ≡ s.bounties) × (s'.config ≡ s.config)
finished_with env b attributes msgs s r s' h =
    let (bounties, config) = finish_kept env b attributes msgs s in
    let end = ok-eq (finish env b attributes msgs s) (r, s') h in
    (
      ap (λ (p : Response × Store). p.1.bounties) (sym end) ∙ bounties,
      ap (λ (p : Response × Store). p.1.config) (sym end) ∙ config,
    )

module _ ⦃m : Arith⦄ where
  settle-HasSameTerms :
      (b : Bounty) (sent : Coin) (split : Split) (b' : Bounty)
      → settle b sent split ≡ ok b'
      → HasSameTerms b b'
  unfolding settle
  settle-HasSameTerms b sent split b' h =
      let (balance, _, h1) = >>=-eq-ok (or_err (m.sub b.balance.amount sent.amount) panic) _ h in
      let (swapped, _, h2) = >>=-eq-ok (add_to b.swapped_amount sent.amount) _ h1 in
      let (received, _, h3) =
        >>=-eq-ok (add_to b.received_amount split.total_after_all_fees) _ h2 in
      let (escrowed, _, h4) = >>=-eq-ok (add_to b.escrowed_amount split.amount_to_escrow) _ h3 in
      record {
        id = ground arith;
        destinations = ground arith;
        tolerance = ground arith;
        interval = ground arith;
      }

  module _ (api : Api) (q : Balances) (env : Env) where
    distribute_kept :
        (s : Store) (id : ℕ) (b : Bounty) (sent received : Coin) (split : Split) (r : Response)
        (s' : Store)
        → IsEntry id b
        → distribute api q env s b sent received split ≡ ok (r, s')
        → KeepsLedger s s'
    unfolding distribute create_event update_bounty
    distribute_kept s id b coin_sent received split r s' entry h ledger =
        let (fee_msgs, _, h1) =
          >>=-eq-ok
            (get_fee_messages api s env (split.swap_fee ∷ split.automation_fee ∷ []) received.denom
              false)
            _ h in
        let (settled, e2, h2) = >>=-eq-ok (settle b coin_sent split) _ h1 in
        let ((msgs, mid), e3, h3) =
          >>=-eq-ok
            (get_disbursement_messages api (update_bounty s settled) settled
              split.total_after_escrow)
            _ h2 in
        let (bounties, config) = finished_with env settled _ _ _ r s' h3 in
        let (kept, _, kept_config) =
          disbursement_keeps api (update_bounty s settled) settled split.total_after_escrow msgs mid
            e3 in
        let same = settle-HasSameTerms b coin_sent split settled e2 in
        (
          saved_entry s.bounties s'.bounties id settled.id settled ledger (same.id ∙ entry.0)
              (IsEntry-cong id b settled same entry) (bounties ∙ kept),
          config ∙ kept_config,
        )

    disburse_swapped_kept :
        (s : Store) (id : ℕ) (b : Bounty) (r : Response) (s' : Store)
        → IsEntry id b
        → disburse_swapped api q env s b ≡ ok (r, s')
        → KeepsLedger s s'
    unfolding disburse_swapped
    disburse_swapped_kept s id b r s' entry h =
        let (cache, _, h0) = >>=-eq-ok (or_err s.swap_cache (not_found "SwapCache")) _ h in
        let (moved, _, h1) = >>=-eq-ok (coins_moved api q env b cache) _ h0 in
        let (swap_rate, _, h2) = >>=-eq-ok (get_swap_fee_rate s b.swap_adjustment_strategy) _ h1 in
        let (automation_rate, _, h3) = >>=-eq-ok (get_automation_fee_rate s b) _ h2 in
        let (split, _, h4) =
          >>=-eq-ok (split_received moved.1.amount swap_rate automation_rate b.escrow_level) _ h3 in
        distribute_kept s id b moved.0 moved.1 split r s' entry h4

    pub disburse_funds-KeepsLedger :
        (s : Store) (reply : SubMsgResult) (r : Response) (s' : Store)
        → disburse_funds_handler api q env s reply ≡ ok (r, s')
        → KeepsLedger s s'
    unfolding disburse_funds_handler create_event
    disburse_funds-KeepsLedger s reply r s' h ledger =
        let (id, _, h1) = >>=-eq-ok (or_err s.bounty_id_cache (not_found "Uint128")) _ h in
        let (b, found, h2) = >>=-eq-ok (get_bounty s id) _ h1 in
        replied_lem id b reply (entry_lem s id b ledger found) h2
      where
        replied_lem :
            (id : ℕ) (b : Bounty) (reply : SubMsgResult)
            → IsEntry id b
            → elim reply [
              | succeeded ↦ disburse_swapped api q env s b
              | failed ↦ ok (
                  finish env b (("execution_skipped", text "slippage_tolerance_exceeded") ∷ []) [] (
                    create_event s env b.id (bounty_execution_skipped slippage_tolerance_exceeded)))
            ]
              ≡ ok (r, s')
            → IsLedger s'.bounties × (s'.config ≡ s.config)
        replied_lem id b succeeded entry e = disburse_swapped_kept s id b r s' entry e ledger
        replied_lem id b failed entry e =
            let (bounties, config) = finished_with env b _ _ _ r s' e in
            (IsLedger-same s.bounties s'.bounties ledger bounties, config)

  module _ (api : Api) (get_twap_to_now : TwapQuery) (env : Env) where
    pay_escrow_kept :
        (s : Store) (id : ℕ) (b : Bounty) (disbursed fee : Coin) (r : Response) (s' : Store)
        → IsEntry id b
        → pay_escrow api get_twap_to_now env s b disbursed fee ≡ ok (r, s')
        → KeepsLedger s s'
    unfolding pay_escrow emptied
    pay_escrow_kept s id b disbursed fee r s' entry h ledger =
        let ((msgs, mid), e1, h1) =
          >>=-eq-ok
            (get_disbursement_messages api (emptied s env b disbursed fee) (without_escrow b)
              disbursed.amount)
            _ h in
        let (fee_msgs, _, h2) =
          >>=-eq-ok (get_fee_messages api mid env (fee.amount ∷ []) b.target_denom true) _ h1 in
        let (kept, _, config) =
          disbursement_keeps api (emptied s env b disbursed fee) (without_escrow b) disbursed.amount
            msgs mid e1 in
        let end = ok-eq _ (r, s') h2 in
        (
          saved_entry s.bounties s'.bounties id b.id (without_escrow b) ledger entry.0 entry
              (ap (λ (p : Response × Store). p.1.bounties) (sym end) ∙ kept),
          ap (λ (p : Response × Store). p.1.config) (sym end) ∙ config,
        )

    pub disburse_escrow-KeepsLedger :
        (s : Store) (info : MessageInfo) (id : ℕ) (r : Response) (s' : Store)
        → disburse_escrow_handler api get_twap_to_now env s info id ≡ ok (r, s')
        → KeepsLedger s s'
    unfolding disburse_escrow_handler disburse_due
    disburse_escrow-KeepsLedger s info id r s' h ledger =
        let (_, _, h0) = >>=-eq-ok (assert_sender_is_executor s env info.sender) _ h in
        let (b, found, h1) = >>=-eq-ok (get_bounty s id) _ h0 in
        elim (Bool-cases (b.escrowed_amount.amount == 0)) [
          | inl empty ↦
              let end = ok-eq _ (r, s') (rw empty at h1) in
              (
                IsLedger-same s.bounties s'.bounties ledger
                    (ap (λ (p : Response × Store). p.1.bounties) (sym end)),
                ap (λ (p : Response × Store). p.1.config) (sym end),
              )
          | inr left ↦ due b (entry_lem s id b ledger found) (rw left at h1)
        ]
      where
        due :
            (b : Bounty)
            → IsEntry id b
            → disburse_due api get_twap_to_now env s b ≡ ok (r, s')
            → IsLedger s'.bounties × (s'.config ≡ s.config)
        due b entry e =
            let (_, _, h0) =
              >>=-eq-ok (assert_due (get_disburse_escrow_task_due_date s b.id) env.time) _ e in
            let (c, _, h1) = >>=-eq-ok (get_config s) _ h0 in
            let (price, _, h2) =
              >>=-eq-ok
                (get_twap_to_now c.exchange_contract_address (get_swap_denom b) b.target_denom
                  c.twap_period b.route)
                _ h1 in
            let (fee, _, h3) = >>=-eq-ok (get_performance_fee b price) _ h2 in
            let (disbursed, _, h4) = >>=-eq-ok (subtract b.escrowed_amount fee) _ h3 in
            pay_escrow_kept s id b disbursed fee r s' entry h4 ledger
