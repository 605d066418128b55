-- ===== src/Dca/DisburseFunds/Conservation.antt =====
-- What contracts/dca/src/handlers/disburse_funds.rs sends after a swap, with what it keeps in
-- escrow, is at most what the swap brought.
use bounties.Prelude.{
  map, ℕ, ◌+◌, ◌-◌, ◌≤◌, ◌≡◌, ◌∙◌, false, some, List, [], ◌∷◌, ◌++◌, arith, ltb, Bool-cases, inl,
  inr, sum_of,
}
use bounties.Shared.Result.{ok, >>=-eq-ok}
use bounties.Shared.Arith.{Arith}
use bounties.Shared.Coin.{Coin}
use bounties.Shared.Cw20.{query_balance}
use bounties.Shared.Chain.{Api, Balances, Env, Attribute, Response, SubMsg}
use bounties.Shared.Storage.{Storage, may_load, save}
use bounties.Shared.Storage.Laws.{may_load-save}
use bounties.Dca.Types.{
  Bounty, Config, Destination, PostExecutionActionCacheEntry, SwapCache, should_not_continue,
}
use bounties.Dca.Store.{Store, get_config, update_bounty, create_event, delete_trigger, bounty_data}
use bounties.Dca.Disbursement.{destination_entries, get_disbursement_messages}
use bounties.Dca.Disbursement.Parts.{shares_of_one}
use bounties.Dca.Disbursement.Messages.{destination_entries_lem, sent-eq}
use bounties.Dca.Fees.{get_fee_messages}
use bounties.Dca.Fees.Totals.{allocations, sum, sent, sent-append, fee_messages_le}
use bounties.Dca.DisburseFunds.{Split, settle, finish, distribute, disburse_escrow_msg}
use bounties.Dca.DisburseFunds.Amounts.{IsSettled, settle_lem}

-- The call of `DisburseEscrow` moves no money, and no bounty is written at the end.
finish_lem :
    (env : Env) (b : Bounty) (attributes : List Attribute) (msgs : List SubMsg) (s : Store)
    → (sent (finish env b attributes msgs s).0.messages ≡ sent msgs)
      × ((finish env b attributes msgs s).1.bounties ≡ s.bounties)
unfolding finish delete_trigger
finish_lem env b attributes msgs s = elim (Bool-cases (should_not_continue b)) [
  | inl over ↦ elim (Bool-cases (ltb 0 b.escrowed_amount.amount)) [
    | inl escrow ↦ (
      rw (over, escrow) (sent-append msgs (disburse_escrow_msg env b.id ∷ []) ∙ omega arith),
      rw over,
    )
    | inr nothing ↦ (rw (over, nothing), rw over)
  ]
  | inr going ↦ (rw going, rw going)
]

-- What the swap took is what the balance of the swap's denomination fell by, and what it brought
-- is what the target's grew by, from the balances in the cache to the present ones.
pub record IsMoved (api : Api) (q : Balances) (env : Env) (b : Bounty) (cache : SwapCache)
    (moved : Coin × Coin) : Type 0 where
  pub left : Coin
  pub reached : Coin
  pub left_now : query_balance api q b.balance.denom env.contract ≡ ok left
  pub reached_now : query_balance api q b.target_denom env.contract ≡ ok reached
  pub taken : moved.0.amount ≡ cache.swap_denom_balance.amount - left.amount
  pub brought : moved.1.amount ≡ reached.amount - cache.receive_denom_balance.amount

ok-injective : {A : Type 0} (a b : A) → ok a ≡ ok b → a ≡ b
ok-injective a b h = cc

finish_ok :
    (env : Env) (b : Bounty) (attributes : List Attribute) (msgs : List SubMsg) (s : Store)
    (resp : Response) (s' : Store)
    → ok (finish env b attributes msgs s) ≡ ok (resp, s')
    → (sent resp.messages ≡ sent msgs) × (s'.bounties ≡ s.bounties)
finish_ok env b attributes msgs s resp s' h =
    let lem = finish_lem env b attributes msgs s in
    let eq : finish env b attributes msgs s ≡ (resp, s') = ok-injective _ _ h in rw eq at lem

stored_at :
    (bounties after : Storage Bounty) (b settled : Bounty)
    → settled.id ≡ b.id
    → after ≡ save settled.id (bounty_data settled) bounties
    → may_load b.id after ≡ some (bounty_data settled)
stored_at bounties after b settled same stored = rw (stored, may_load-save) (ground (arith, same))

sent_le :
    (all fee_msgs msgs : List SubMsg) {fees payment : ℕ}
    → sent all ≡ sent (fee_msgs ++ msgs)
    → sent fee_msgs ≤ fees
    → sent msgs ≤ payment
    → sent all ≤ fees + payment
sent_le all fee_msgs msgs e f g = omega (arith, sent-append fee_msgs msgs)

two_fees : (n a b : ℕ) → n ≤ sum (a ∷ b ∷ []) → n ≤ a + b
two_fees n a b le = omega arith

module _ ⦃m : Arith⦄ (api : Api) where
  -- What the messages of a disbursement send, whenever there is one.
  pub disbursement_le :
      (s : Store) (b : Bounty) (n : ℕ) (msgs : List SubMsg) (s' : Store)
      → sum_of (λ (d : Destination). d.allocation) b.destinations ≡ 1000000000000000000
      → get_disbursement_messages api s b n ≡ ok (msgs, s')
      → (sent msgs ≤ n) × (s'.bounties ≡ s.bounties)
  unfolding get_disbursement_messages
  disbursement_le s b n msgs s' one h =
      let (es, e, f) =
        >>=-eq-ok (destination_entries api b.target_denom n b.destinations)
          (λ entries. ok (
            map (λ (x : PostExecutionActionCacheEntry). x.msg) entries,
            record s {
              post_execution_action_cache = save b.id entries s.post_execution_action_cache;
            },
          ))
          h in
      let (sum, pays) = destination_entries_lem api b.target_denom n b.destinations es e in
      let bounds = shares_of_one (λ (d : Destination). d.allocation) n b.destinations one in
      let same : msgs ≡ map (λ (x : PostExecutionActionCacheEntry). x.msg) es = ground arith in
      (rw same (omega (arith, sent-eq es pays)), ground arith)

  module _ (q : Balances) (env : Env) where
    pub distribute_lem :
        (s : Store) (b : Bounty) (coin_sent received : Coin) (split : Split) (config : Config)
        (resp : Response) (s' : Store)
        → get_config s ≡ ok config
        → allocations config.fee_collectors ≡ 1000000000000000000
        → sum_of (λ (d : Destination). d.allocation) b.destinations ≡ 1000000000000000000
        → distribute api q env s b coin_sent received split ≡ ok (resp, s')
        → (settled : Bounty) × IsSettled b coin_sent.amount split settled
          × (may_load b.id s'.bounties ≡ some (bounty_data settled))
          × (sent resp.messages ≤ split.swap_fee + split.automation_fee + split.total_after_escrow)
    unfolding distribute create_event update_bounty
    distribute_lem s b coin_sent received split config resp s' c fees one h =
        let (fee_msgs, e1, h1) =
          >>=-eq-ok
            (get_fee_messages api s env (split.swap_fee ∷ split.automation_fee ∷ []) received.denom
              false)
            _ h in
        let (settled, e2, h2) = >>=-eq-ok (settle b coin_sent split) _ h1 in
        let ((msgs, mid), e3, h3) =
          >>=-eq-ok
            (get_disbursement_messages api (update_bounty s settled) settled
              split.total_after_escrow)
            _ h2 in
        let accounts = settle_lem b coin_sent split settled e2 in
        let still_one : sum_of (λ (d : Destination). d.allocation) settled.destinations
            ≡ 1000000000000000000 =
          rw accounts.same_destinations one in
        let (paid_le, kept) =
          disbursement_le (update_bounty s settled) settled split.total_after_escrow msgs mid
            still_one e3 in
        let few =
          fee_messages_le api s env (split.swap_fee ∷ split.automation_fee ∷ []) received.denom
            false config fee_msgs c fees e1 in
        let fee_le = two_fees (sent fee_msgs) split.swap_fee split.automation_fee few in
        let (kept_sent, kept_bounties) = finish_ok env settled _ _ _ resp s' h3 in
        let stored : s'.bounties ≡ save settled.id (bounty_data settled) s.bounties =
          kept_bounties ∙ kept in
        (
          settled,
          accounts,
          stored_at s.bounties s'.bounties b settled accounts.same_id stored,
          sent_le resp.messages fee_msgs msgs kept_sent fee_le paid_le,
        )
